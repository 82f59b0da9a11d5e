-- ===== src/Runtime/Wait/Code.antt =====
-- The exit code of a run is the container's own.
use climate.Common.{
  ◌==◌, ==_iff, Bool-cases, inl, inr, Option, some, List, [], ◌∷◌, ℕ, Result, ok, ◌≡◌, ap, ◌∙◌, In,
  Option-cases,
}
use climate.Common.Error.{Error}
use climate.Runtime.Wait.{
  WaitStatus, Answer, changed, nothing, interrupted, childless, failed, code_of, wait,
}

-- A code that is returned is that of an answer about the container itself: its exit status, or 128
-- plus the signal that killed it. An answer about another child, and an end of the children without
-- one about the container, never give a code.
pub wait-In :
    (pid : ℕ) (answers : List Answer) (code : ℕ)
    → wait pid answers ≡ some (ok code)
    → (status : WaitStatus) × In (changed pid status) answers × (code_of status ≡ some code)
unfolding wait
wait-In pid [] code h = cc
wait-In pid (changed p status ∷ rest) code h = elim (Bool-cases (p == pid)) [
  | inl own ↦ elim (Option-cases (code_of status)) [
    | inl unsettled ↦
        let (s, i, e) = wait-In pid rest code (rw (own, unsettled) at h) in (s, inr i, e)
    | inr (c, e) ↦
        let same : c ≡ code = settled c (rw (own, e) at h) in
        (status, inl (ap (λ q. changed q status) (back ((==_iff p pid).0 own))), e ∙ ap some same)
  ]
  | inr other ↦ let (s, i, e) = wait-In pid rest code (rw other at h) in (s, inr i, e)
]
  where
    settled : (c : ℕ) → Path (Option (Result Error ℕ)) (some (ok c)) (some (ok code)) → c ≡ code
    settled c e = cc

    back : p ≡ pid → pid ≡ p
    back e = cc
wait-In pid (nothing ∷ rest) code h = let (s, i, e) = wait-In pid rest code h in (s, inr i, e)
wait-In pid (interrupted ∷ rest) code h = let (s, i, e) = wait-In pid rest code h in (s, inr i, e)
wait-In pid (childless ∷ rest) code h = cc
wait-In pid (failed ∷ rest) code h = cc
