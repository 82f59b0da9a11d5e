-- ===== src/Runtime/Wait/Tests.antt =====
-- A container that is killed while another child ends well.
use climate.Common.{some, List, [], ◌∷◌, ok, ◌≡◌, refl, In}
use climate.Runtime.Wait.{WaitStatus, Answer, exited, killed, changed, interrupted, code_of, wait}
use climate.Runtime.Wait.Code.{wait-In}

abbrev answers : List Answer
answers = changed 7 (exited 0) ∷ interrupted ∷ changed 42 (killed 9) ∷ []

ended : wait 42 answers ≡ some (ok 137)
unfolding wait
ended = refl

wait-In_example :
    (status : WaitStatus) × In (changed 42 status) answers × (code_of status ≡ some 137)
wait-In_example = wait-In 42 answers 137 ended
