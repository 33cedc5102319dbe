-- ===== src/Simclient/Control/Once.antt =====
-- src/pic_agentic/simclient/client.py: a control command that is delivered again.
use mathlib.Core.Path.{subst}
use text.Mathlib.TextPositions.{eq_refl}
use pic_agentic.Common.{
  suc, ◌≤◌, ◌<◌, String, true, false, ◌≡◌, refl, sym, ◌∙◌, Option, none, some, List, [], ◌∷◌, arith,
  length, is_empty, ltb, inl, inr, Bool-cases,
}
use pic_agentic.Simclient.Control.{
  SimulationOp, op_value, Answer, ControlAck, World, Controls, Outcome, raised, returned, Target,
  Gate, answered, passes, is_key, is_save, find_ack, put_ack, trimmed, send_control_ack, conclude,
  control_gate, pass_gate, Request, refused, requested, resend_or_pass, handle_control,
}

is_key_self : (a : ControlAck) → is_key a.cmd_id a.sim_id a.op a ≡ true
is_key_self a = rw (eq_refl a.cmd_id, eq_refl a.sim_id, eq_refl (op_value a.op)) refl

pub find_ack-put_ack :
    (a : ControlAck) (l : List ControlAck) → find_ack a.cmd_id a.sim_id a.op (put_ack a l) ≡ some a
unfolding find_ack put_ack
find_ack-put_ack a [] = rw (is_key_self a) refl
find_ack-put_ack a (b ∷ l) = elim (Bool-cases (is_key a.cmd_id a.sim_id a.op b)) [
  | inl same ↦ rw (same, find_ack, is_key_self a) refl
  | inr other ↦ rw (other, find_ack, other) (find_ack-put_ack a l)
]

pub length-put_ack : (a : ControlAck) (l : List ControlAck) → length (put_ack a l) ≤ suc (length l)
unfolding put_ack
length-put_ack a [] = omega arith
length-put_ack a (b ∷ l) = ground (arith, length-put_ack a l)

abbrev pub ack_with : String → String → SimulationOp → Answer → ControlAck
ack_with c sim op x = record { cmd_id = c; sim_id = sim; op = op; answer = x }

-- The answer to a command is found again.
abbrev pub IsAnswered : String → String → SimulationOp → Controls → Type 0
IsAnswered c sim op s = (x : ControlAck) × (find_ack c sim op s.control_acks ≡ some x)

send_control_ack-IsAnswered :
    (c sim : String) (op : SimulationOp) (x : Answer) (s : Controls)
    → is_empty c ≡ false
    → length s.control_acks < s.limit
    → IsAnswered c sim op (send_control_ack c sim op x s)
unfolding send_control_ack trimmed
send_control_ack-IsAnswered c sim op x s named room =
    let a = ack_with c sim op x in
    let short = length-put_ack a s.control_acks in
    let fits : ltb s.limit (length (put_ack a s.control_acks)) ≡ false = ground arith in
    (a, rw (named, fits) (find_ack-put_ack a s.control_acks))

conclude-IsAnswered :
    (c sim : String) (op : SimulationOp) (t : Target) (o : Outcome) (s : Controls)
    → is_empty c ≡ false
    → length s.control_acks < s.limit
    → IsAnswered c sim op (conclude c sim op t o s)
unfolding conclude
conclude-IsAnswered c sim op t (raised e) s named room =
    send_control_ack-IsAnswered c sim op _ _ named room
conclude-IsAnswered c sim op t (returned reason) s named room = elim (Bool-cases (is_save op)) [
  | inl saves ↦ rw saves (send_control_ack-IsAnswered c sim op _ _ named room)
  | inr other ↦ rw other (send_control_ack-IsAnswered c sim op _ _ named room)
]

-- A client without a control function signals nothing.
send_control_ack-off :
    (c sim : String) (op : SimulationOp) (x : Answer) (s : Controls)
    → ((send_control_ack c sim op x s).signalled ≡ s.signalled)
      × ((send_control_ack c sim op x s).has_control_fn ≡ s.has_control_fn)
unfolding send_control_ack
send_control_ack-off c sim op x s = elim (Bool-cases (is_empty c)) [
  | inl empty ↦ rw empty (refl, refl)
  | inr named ↦ rw named (refl, refl)
]

pass_gate-off :
    (w : World) (c sim : String) (op : SimulationOp) (g : Gate) (s : Controls)
    → s.has_control_fn ≡ false
    → ((pass_gate w c sim op g s).signalled ≡ s.signalled)
      × ((pass_gate w c sim op g s).has_control_fn ≡ s.has_control_fn)
unfolding pass_gate
pass_gate-off w c sim op (answered x) s off = send_control_ack-off c sim op x s
pass_gate-off w c sim op (passes t) s off = rw off (refl, refl)

resend_or_pass-off :
    (w : World) (c sim : String) (op : SimulationOp) (o : Option ControlAck) (s : Controls)
    → s.has_control_fn ≡ false
    → (resend_or_pass w c sim op o s).signalled ≡ s.signalled
unfolding resend_or_pass
resend_or_pass-off w c sim op (some a) s off = refl
resend_or_pass-off w c sim op none s off =
    (pass_gate-off w c sim op (control_gate w sim op s) s off).0

pass_gate-IsAnswered :
    (w : World) (c sim : String) (op : SimulationOp) (g : Gate) (s : Controls)
    → s.has_control_fn ≡ true
    → is_empty c ≡ false
    → length s.control_acks < s.limit
    → IsAnswered c sim op (pass_gate w c sim op g s)
unfolding pass_gate
pass_gate-IsAnswered w c sim op (answered x) s able named room =
    send_control_ack-IsAnswered c sim op x s named room
pass_gate-IsAnswered w c sim op (passes t) s able named room =
    let called : pass_gate w c sim op (passes t) s ≡ conclude c sim op t (w.control_fn op t) s =
      rw able refl in
    subst (λ (z : Controls). IsAnswered c sim op z) (sym called)
      (conclude-IsAnswered c sim op t (w.control_fn op t) s named room)

-- The state after a request whose answer is known, and after one without a control function.
again-IsAnswered :
    (w : World) (c sim : String) (op : SimulationOp) (s : Controls)
    → is_empty c ≡ false
    → IsAnswered c sim op s
    → (handle_control w c (requested sim op) s).signalled ≡ s.signalled
unfolding handle_control resend_or_pass
again-IsAnswered w c sim op s named (x, found) = rw (named, found) refl

again-off :
    (w : World) (c sim : String) (op : SimulationOp) (s : Controls)
    → s.has_control_fn ≡ false
    → (handle_control w c (requested sim op) s).signalled ≡ s.signalled
unfolding handle_control
again-off w c sim op s off = resend_or_pass-off w c sim op _ s off

resend_or_pass-again :
    (w later : World) (c sim : String) (op : SimulationOp) (o : Option ControlAck) (s : Controls)
    → find_ack c sim op s.control_acks ≡ o
    → is_empty c ≡ false
    → length s.control_acks < s.limit
    → (handle_control later c (requested sim op) (resend_or_pass w c sim op o s)).signalled
      ≡ (resend_or_pass w c sim op o s).signalled
unfolding resend_or_pass
resend_or_pass-again w later c sim op (some a) s found named room =
    again-IsAnswered later c sim op _ named (a, found)
resend_or_pass-again w later c sim op none s found named room = elim (Bool-cases s.has_control_fn) [
  | inl able ↦
      again-IsAnswered later c sim op _ named
        (pass_gate-IsAnswered w c sim op (control_gate w sim op s) s able named room)
  | inr off ↦
      let kept = pass_gate-off w c sim op (control_gate w sim op s) s off in
      again-off later c sim op _ (kept.1 ∙ off)
]

-- A control request that is handled a second time, whatever the scheduler and the control function
-- then answer, calls the control function no further time, where the request names a command and
-- the cache of answers had room for one more before the first handling.
pub handle_control-again :
    (w later : World) (c : String) (r : Request) (s : Controls)
    → is_empty c ≡ false
    → length s.control_acks < s.limit
    → (handle_control later c r (handle_control w c r s)).signalled
      ≡ (handle_control w c r s).signalled
unfolding handle_control
handle_control-again w later c (refused a) s named room = refl
handle_control-again w later c (requested sim op) s named room =
    let looked : handle_control w c (requested sim op) s
        ≡ resend_or_pass w c sim op (find_ack c sim op s.control_acks) s =
      rw named refl in
    subst (λ (z : Controls). (handle_control later c (requested sim op) z).signalled ≡ z.signalled)
      (sym looked) (resend_or_pass-again w later c sim op _ s refl named room)
