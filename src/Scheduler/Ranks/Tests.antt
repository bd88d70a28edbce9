-- ===== src/Scheduler/Ranks/Tests.antt =====
-- Two rounds of two ranks.
use flash_kvmo_e.Scheduler.Exchange.{recv_msg_multi_rank0, rounds_rank0, rounds_rank1}
use flash_kvmo_e.Base.{ℕ, List, [], ◌∷◌, ◌++◌, ok, refl, ◌≡◌, true, false}
use flash_kvmo_e.Scheduler.Ranks.{rounds_rank1-rounds_rank0}

abbrev double : ℕ → List ℕ
double n = n ∷ n ∷ []

two_rounds :
    rounds_rank0 double ((true, 1) ∷ (false, 2) ∷ []) (4 ∷ 5 ∷ 6 ∷ [])
    ≡ ok (
      (double 4 ∷ double 5 ∷ []) ∷ (double 6 ∷ []) ∷ [],
      (true, 1) ∷ (false, 1) ∷ [],
      4 ∷ 5 ∷ 6 ∷ [],
    )
unfolding rounds_rank0
two_rounds = refl

rounds_rank1-rounds_rank0_example :
    rounds_rank1 double ((true, 1) ∷ (false, 1) ∷ []) ((4 ∷ 5 ∷ 6 ∷ []) ++ (7 ∷ []))
    ≡ ok ((double 4 ∷ double 5 ∷ []) ∷ (double 6 ∷ []) ∷ [], 7 ∷ [])
rounds_rank1-rounds_rank0_example =
    rounds_rank1-rounds_rank0 double ((true, 1) ∷ (false, 2) ∷ []) (4 ∷ 5 ∷ 6 ∷ [])
      ((double 4 ∷ double 5 ∷ []) ∷ (double 6 ∷ []) ∷ []) ((true, 1) ∷ (false, 1) ∷ [])
      (4 ∷ 5 ∷ 6 ∷ []) two_rounds (7 ∷ [])

one_round :
    recv_msg_multi_rank0 double true 1 (4 ∷ 5 ∷ 6 ∷ [])
    ≡ ok (double 4 ∷ double 5 ∷ [], 6 ∷ [], 4 ∷ 5 ∷ [], 1)
unfolding recv_msg_multi_rank0
one_round = refl
