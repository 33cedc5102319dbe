-- ===== src/Server/Events/Log.antt =====
-- src/pic_agentic/server/simulation.py: what the bounded log keeps of each simulation.
use mathlib.Core.Path.{subst}
use mathlib.Core.List.{append-nil}
use pic_agentic.Common.{
  ℕ, zero, suc, ◌-◌, ◌≤◌, String, ◌≡◌, refl, sym, ap, ◌∙◌, true, false, List, [], ◌∷◌, ◌++◌, inl,
  inr, arith, eq_iff, eq_refl, length, count_if, str_eq, Bool-cases, if◌then◌else◌,
}
use pic_agentic.Common.Value.{Value}
use pic_agentic.Rcp.Envelope.{RcpMessage}
use pic_agentic.Server.Registry.{text_of}
use pic_agentic.Server.Events.{is_about, drop_matching, append_event_log}

-- `xs[n:]`
abbrev pub drop {ℓ} : {A : Type ℓ} → ℕ → List A → List A
drop n [] = []
drop zero (x ∷ xs) = x ∷ xs
drop (suc n) (x ∷ xs) = drop n xs

length-drop {ℓ} : {A : Type ℓ} (n : ℕ) (xs : List A) → length (drop n xs) ≡ length xs - n
length-drop n [] = omega arith
length-drop zero (x ∷ xs) = omega arith
length-drop (suc n) (x ∷ xs) = omega (arith, length-drop n xs)

module _ (to_str : Value → String) where
  -- The entries of one simulation.
  unfoldable pub history : String → List RcpMessage → List RcpMessage
  history sim_id [] = []
  history sim_id (m ∷ ms) =
      let rest = history sim_id ms in if is_about to_str sim_id m then m ∷ rest else rest

  history-append :
      (sim_id : String) (xs ys : List RcpMessage)
      → history sim_id (xs ++ ys) ≡ history sim_id xs ++ history sim_id ys
  unfolding history
  history-append sim_id [] ys = refl
  history-append sim_id (m ∷ ms) ys = elim (Bool-cases (is_about to_str sim_id m)) [
    | inl here ↦ rw here (ap (λ (l : List RcpMessage). m ∷ l) (history-append sim_id ms ys))
    | inr away ↦ rw away (history-append sim_id ms ys)
  ]

  length-history :
      (sim_id : String) (ms : List RcpMessage)
      → length (history sim_id ms) ≡ count_if (is_about to_str sim_id) ms
  unfolding history
  length-history sim_id [] = refl
  length-history sim_id (m ∷ ms) = elim (Bool-cases (is_about to_str sim_id m)) [
    | inl here ↦ rw here (omega (arith, length-history sim_id ms))
    | inr away ↦ rw away (omega (arith, length-history sim_id ms))
  ]

  history-drop_matching :
      (n : ℕ) (sim_id : String) (ms : List RcpMessage)
      → history sim_id (drop_matching to_str n sim_id ms) ≡ drop n (history sim_id ms)
  unfolding history drop_matching
  history-drop_matching n sim_id [] = refl
  history-drop_matching zero sim_id (m ∷ ms) = drop_zero (history sim_id (m ∷ ms))
    where
      drop_zero : (l : List RcpMessage) → l ≡ drop zero l
      drop_zero [] = refl
      drop_zero (x ∷ xs) = refl
  history-drop_matching (suc n) sim_id (m ∷ ms) = elim (Bool-cases (is_about to_str sim_id m)) [
    | inl here ↦ rw (here, drop_matching) (history-drop_matching n sim_id ms)
    | inr away ↦ rw (away, drop_matching, history, away) (history-drop_matching (suc n) sim_id ms)
  ]

  apart :
      (a b : String) (m : RcpMessage)
      → str_eq a b ≡ false
      → is_about to_str a m ≡ true
      → is_about to_str b m ≡ false
  unfolding is_about
  apart a b m h here = ground (
    arith,
    eq_iff (text_of to_str "sim_id" m.payload) a,
    eq_iff (text_of to_str "sim_id" m.payload) b,
    eq_iff a b,
  )

  history-drop_other :
      (n : ℕ) (a b : String) (ms : List RcpMessage)
      → str_eq a b ≡ false
      → history b (drop_matching to_str n a ms) ≡ history b ms
  unfolding history drop_matching
  history-drop_other n a b [] h = refl
  history-drop_other zero a b (m ∷ ms) h = refl
  history-drop_other (suc n) a b (m ∷ ms) h = elim (Bool-cases (is_about to_str a m)) [
    | inl here ↦
        rw (drop_matching, history, here, apart a b m h here) (history-drop_other n a b ms h)
    | inr away ↦ elim (Bool-cases (is_about to_str b m)) [
      | inl about ↦
          rw (drop_matching, away, history, about)
            (ap (λ (l : List RcpMessage). m ∷ l) (history-drop_other (suc n) a b ms h))
      | inr off ↦ rw (drop_matching, away, history, off) (history-drop_other (suc n) a b ms h)
    ]
  ]

  own_history : (m : RcpMessage) → history (text_of to_str "sim_id" m.payload) (m ∷ []) ≡ m ∷ []
  unfolding history is_about
  own_history m = rw (eq_refl (text_of to_str "sim_id" m.payload)) refl

  history-appended :
      (m : RcpMessage) (event_log : List RcpMessage)
      → let sim_id = text_of to_str "sim_id" m.payload in
        history sim_id (event_log ++ m ∷ []) ≡ history sim_id event_log ++ m ∷ []
  history-appended m event_log =
      let sim_id : String = text_of to_str "sim_id" m.payload in
      history-append sim_id event_log (m ∷ [])
      ∙ ap (λ (l : List RcpMessage). history sim_id event_log ++ l) (own_history m)

  other_history :
      (m : RcpMessage) (other : String) (ms : List RcpMessage)
      → str_eq (text_of to_str "sim_id" m.payload) other ≡ false
      → ms ++ history other (m ∷ []) ≡ ms
  unfolding history is_about
  other_history m other ms h = rw h (append-nil ms)

  history-append_own :
      (event_log_max : ℕ) (m : RcpMessage) (event_log : List RcpMessage)
      → let sim_id = text_of to_str "sim_id" m.payload in
        let appended = history sim_id event_log ++ m ∷ [] in
        (history sim_id (append_event_log to_str event_log_max m event_log)
          ≡ drop (length appended - event_log_max) appended)
        × (length (history sim_id (append_event_log to_str event_log_max m event_log))
            ≤ event_log_max)
  unfolding append_event_log
  history-append_own event_log_max m event_log =
      let sim_id : String = text_of to_str "sim_id" m.payload in
      let both : List RcpMessage = event_log ++ m ∷ [] in
      let appended : List RcpMessage = history sim_id event_log ++ m ∷ [] in
      let all : history sim_id both ≡ appended = history-appended m event_log in
      let kept : history sim_id (append_event_log to_str event_log_max m event_log)
          ≡ drop (length appended - event_log_max) appended =
        history-drop_matching (count_if (is_about to_str sim_id) both - event_log_max) sim_id both
        ∙ ap (λ (n : ℕ). drop (n - event_log_max) (history sim_id both))
            (sym (length-history sim_id both))
        ∙ ap (λ (l : List RcpMessage). drop (length l - event_log_max) l) all in
      (kept, rw kept (omega (arith, length-drop (length appended - event_log_max) appended)))

  history-append_other :
      (event_log_max : ℕ) (m : RcpMessage) (event_log : List RcpMessage) (other : String)
      → str_eq (text_of to_str "sim_id" m.payload) other ≡ false
      → history other (append_event_log to_str event_log_max m event_log) ≡ history other event_log
  unfolding append_event_log
  history-append_other event_log_max m event_log other h =
      let sim_id : String = text_of to_str "sim_id" m.payload in
      let both : List RcpMessage = event_log ++ m ∷ [] in
      history-drop_other (count_if (is_about to_str sim_id) both - event_log_max) sim_id other both
        h
      ∙ history-append other event_log (m ∷ [])
      ∙ other_history m other (history other event_log) h

  -- Appending an event leaves, of the simulation that it is about, the newest `event_log_max` entries
  -- with the event behind them, and all entries of any other simulation; the log never holds more than
  -- `event_log_max` entries of the event's simulation afterwards.
  pub history-append_event_log :
      (event_log_max : ℕ) (m : RcpMessage) (event_log : List RcpMessage) (sim_id : String)
      → let appended = history sim_id event_log ++ m ∷ [] in
        (history sim_id (append_event_log to_str event_log_max m event_log) ≡ (
          if str_eq (text_of to_str "sim_id" m.payload) sim_id
          then drop (length appended - event_log_max) appended
          else history sim_id event_log))
        × (length (
              history
                (text_of to_str "sim_id" m.payload)
                (append_event_log to_str event_log_max m event_log))
            ≤ event_log_max)
  history-append_event_log event_log_max m event_log sim_id =
      let own = history-append_own event_log_max m event_log in
      let named : String = text_of to_str "sim_id" m.payload in
      elim (Bool-cases (str_eq named sim_id)) [
        | inl same ↦ rw same (
          subst
              (λ (s : String).
                history s (append_event_log to_str event_log_max m event_log)
                ≡ drop (length (history s event_log ++ m ∷ []) - event_log_max)
                    (history s event_log ++ m ∷ []))
              ((eq_iff named sim_id).0 same) own.0,
          own.1,
        )
        | inr other ↦ rw other (history-append_other event_log_max m event_log sim_id other, own.1)
      ]
