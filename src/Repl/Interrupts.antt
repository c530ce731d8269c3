-- ===== src/Repl/Interrupts.antt =====
-- cmd/execdb/interrupt.go: what Ctrl+C does.
pub mod Laws
use execdb.Prelude.{
  ℕ, ◌+◌, Bool, true, false, Option, none, some, ltb, if◌then◌else◌, List, [], ◌∷◌,
}

-- `replInterrupts`: the query that `cancel` belongs to stands for it, and `idleSig` holds one value
-- at most. `cancelled` and `exited` are what the calls of `cancel` and of `exitFunc` have done.
pub record Interrupts : Type 0 where
  pub count : ℕ
  pub cancel : Option ℕ
  pub idle_sig : Bool
  pub cancelled : List ℕ
  pub exited : Bool

-- `newReplInterrupts`.
abbrev pub new_repl_interrupts : Interrupts
new_repl_interrupts = record {
  count = 0;
  cancel = none;
  idle_sig = false;
  cancelled = [];
  exited = false;
}

-- `onInterrupt`.
unfoldable pub on_interrupt : Interrupts → Interrupts
on_interrupt ri =
    let count = ri.count + 1 in
    if ltb 1 count then record ri { count = count; exited = true } else elim ri.cancel [
      | some q ↦ record ri { count = count; cancelled = q ∷ ri.cancelled }
      | none ↦ record ri { count = count; idle_sig = true }
    ]

-- `resetOnNewLine`.
unfoldable pub reset_on_new_line : Interrupts → Interrupts
reset_on_new_line ri = record ri { count = 0 }

-- `begin`, and the function that it returns.
unfoldable pub begin : ℕ → Interrupts → Interrupts
begin q ri = record ri { cancel = some q }

unfoldable pub end : Interrupts → Interrupts
end ri = record ri { cancel = none }

-- What happens in the shell; `idle` is the read of `idleSig`.
pub data Event : Type 0 where
  interrupt line ended idle : Event
  begun : ℕ → Event

unfoldable pub handle : Event → Interrupts → Interrupts
unfolding on_interrupt reset_on_new_line begin end
handle interrupt ri = on_interrupt ri
handle line ri = reset_on_new_line ri
handle (begun q) ri = begin q ri
handle ended ri = end ri
handle idle ri = record ri { idle_sig = false }

unfoldable pub handle_all : List Event → Interrupts → Interrupts
unfolding handle
handle_all [] ri = ri
handle_all (e ∷ es) ri = handle_all es (handle e ri)
