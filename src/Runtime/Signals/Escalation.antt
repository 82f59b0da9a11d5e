-- ===== src/Runtime/Signals/Escalation.antt =====
-- A second signal is sent as SIGKILL, however the handlers interrupt each other and the run.
use climate.Common.{
  ◌++◌, ◌==◌, if◌then◌else◌, Bool-cases, inl, inr, Option, none, some, List, [], ◌∷◌, Bool, true,
  false, ℕ, ◌+◌, ◌≤◌, ◌≡◌, refl, arith,
}
use climate.Runtime.Signals.{
  Signals, store_pid, take_pending, clear_pid, Handler, entered, waits, finds, kills,
  forward_signal, choose_pending, deliver_pending, Phase, Reach, begin, arrives, handles, stores,
  takes, chooses, delivers, clears,
}

abbrev pub one_unless_kill : ℕ → ℕ
one_unless_kill s = if s == 9 then 0 else 1

-- How many signals are not SIGKILL.
abbrev pub others : List ℕ → ℕ
others [] = 0
others (s ∷ sent) = one_unless_kill s + others sent

abbrev other_chosen : Option ℕ → ℕ
other_chosen none = 0
other_chosen (some s) = one_unless_kill s

abbrev other_handlers : List Handler → ℕ
other_handlers [] = 0
other_handlers (entered s ∷ handlers) = other_handlers handlers
other_handlers (waits s ∷ handlers) = other_handlers handlers
other_handlers (finds s ∷ handlers) = other_handlers handlers
other_handlers (kills signal ∷ handlers) = other_chosen signal + other_handlers handlers

abbrev IsBounded : List Handler → Signals → Type 0
IsBounded handlers st =
    (other_handlers handlers + other_chosen st.chosen) + others st.sent
    ≤ (if st.forwarded then 1 else 0)

one_unless_kill-le : (s : ℕ) → one_unless_kill s ≤ 1
one_unless_kill-le s = ground arith

other_chosen-le : (o : Option ℕ) → other_chosen o ≤ 1
other_chosen-le none = omega arith
other_chosen-le (some s) = one_unless_kill-le s

module _ (from_named_raw : ℕ → Option ℕ) where
  handles-IsBounded :
      (handler : Handler) (handlers : List Handler) (st : Signals)
      → IsBounded (handler ∷ handlers) st
      → IsBounded
          ((forward_signal from_named_raw handler st).0 ++ handlers)
          (forward_signal from_named_raw handler st).1
  unfolding forward_signal
  handles-IsBounded (entered s) handlers st h = elim (Bool-cases (st.container_pid == 0)) [
    | inl gone ↦ rw gone h
    | inr there ↦ rw there h
  ]
  handles-IsBounded (waits s) handlers st h = h
  handles-IsBounded (finds s) handlers st h = elim (Bool-cases st.forwarded) [
    | inl again ↦ let before = rw again at h in rw again (omega (arith, before))
    | inr first ↦
        let before = rw first at h in
        rw first (omega (arith, before, other_chosen-le (from_named_raw s)))
  ]
  handles-IsBounded (kills none) handlers st h = omega (arith, h)
  handles-IsBounded (kills (some s)) handlers st h = omega (arith, h)

  chooses-IsBounded :
      (o : Option ℕ) (st : Signals)
      → from_named_raw st.pending ≡ o
      → IsBounded [] st
      → IsBounded [] (choose_pending from_named_raw st)
  unfolding choose_pending
  chooses-IsBounded none st e h = rw e h
  chooses-IsBounded (some s) st e h = elim (Bool-cases st.forwarded) [
    | inl again ↦ rw (e, again) (rw again at h)
    | inr first ↦
        let before = rw first at h in rw (e, first) (omega (arith, before, one_unless_kill-le s))
  ]

  delivers-IsBounded :
      (o : Option ℕ) (st : Signals)
      → st.chosen ≡ o
      → IsBounded [] st
      → IsBounded [] (deliver_pending st)
  unfolding deliver_pending
  delivers-IsBounded none st e h = rw e (rw e at h)
  delivers-IsBounded (some s) st e h = let before = rw e at h in rw e (omega (arith, before))

  Reach-IsBounded :
      {received : List ℕ} {phase : Phase} {handlers : List Handler} {st : Signals}
      → Reach from_named_raw received phase handlers st
      → IsBounded handlers st
  unfolding store_pid take_pending clear_pid
  Reach-IsBounded begin = omega arith
  Reach-IsBounded (arrives signum h r) = Reach-IsBounded r
  Reach-IsBounded (handles handler r) = handles-IsBounded handler _ _ (Reach-IsBounded r)
  Reach-IsBounded (stores pid h r) = Reach-IsBounded r
  Reach-IsBounded (takes r) = Reach-IsBounded r
  Reach-IsBounded (chooses r) = chooses-IsBounded _ _ refl (Reach-IsBounded r)
  Reach-IsBounded (delivers r) = delivers-IsBounded _ _ refl (Reach-IsBounded r)
  Reach-IsBounded (clears r) = Reach-IsBounded r

  -- At every moment of a run, with signals that may interrupt it and each other's handlers anywhere, the
  -- container has been sent at most one signal other than SIGKILL.
  pub Reach-others :
      (received : List ℕ) (phase : Phase) (handlers : List Handler) (st : Signals)
      → Reach from_named_raw received phase handlers st
      → others st.sent ≤ 1
  Reach-others received phase handlers st r = by_flag st.forwarded (Reach-IsBounded r)
    where
      by_flag :
          (f : Bool)
          → (other_handlers handlers + other_chosen st.chosen) + others st.sent
            ≤ (if f then 1 else 0)
          → others st.sent ≤ 1
      by_flag true h = omega (arith, h)
      by_flag false h = omega (arith, h)
