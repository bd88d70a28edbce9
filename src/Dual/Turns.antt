-- ===== src/Dual/Turns.antt =====
-- Each call of `Glm4MoeModel.forward_dual` takes its micro-batch one stage further, and leaves the
-- other where it is.
use flash_kvmo_e.Base.{
  false, inr, sym, inl, Bool-cases, true, ltb, ◌∙◌, ℕ, suc, ◌<◌, ◌≡◌, ◌≢◌, refl, Option, none, some,
  ◌==◌, if◌then◌else◌, arith,
}
use flash_kvmo_e.Dual.Run.{Returns-Next, Next, return}
use flash_kvmo_e.Dual.State.{self_attn, Model, Micro, World}
use flash_kvmo_e.Dual.Device.{Device, Flow, attended, after, through_moe}
use flash_kvmo_e.Dual.Slots
use flash_kvmo_e.Dual.Schedule.{run_schedule}
use flash_kvmo_e.Dual.Slots.{Stage, run_schedule-At, Phases}
use flash_kvmo_e.Dual.Glm.{submit_attn, submit_moe, sync_moe}

module _ {T S K B V : Type 0} (M : Model T S K B) (batches : ℕ → B) (attention : ℕ → K)
    (D : Device M batches attention V) (start : S) where
  abbrev pub passed : ℕ → ℕ → Flow T V
  passed mb k = after M batches attention D mb (D.view mb start) k

  abbrev pub halfway : ℕ → ℕ → Flow T V
  halfway mb k = attended M batches attention D mb k (passed mb k)

  abbrev pub resting : Flow T V → Micro T
  resting f = record {
    hidden_states = f.x;
    residual = f.residual;
    shared = none;
    topk_ids = none;
    topk_weights = none;
  }

  -- A dense layer is finished with its attention; one with experts waits for them.
  abbrev waiting : ℕ → Flow T V → Micro T
  waiting k f = if M.dense k then resting (through_moe M batches attention D k f) else record {
    hidden_states = f.x;
    residual = f.residual;
    shared = some (M.shared_experts k f.x);
    topk_ids = some (M.gate k f.x).0;
    topk_weights = some (M.gate k f.x).1;
  }

  abbrev pub Holds : ℕ → Micro T → V → World T S K B → Type 0
  Holds i m v w = (w.micros i ≡ m) × (D.view i w.device ≡ v)

  abbrev At : Stage → ℕ → ℕ → World T S K B → Type 0
  At Slots.ready i k w = Holds i (resting (passed i k)) (passed i k).cache w
  At Slots.attended i k w = Holds i (waiting k (halfway i k)) (halfway i k).cache w
  At Slots.submitted i k w = Holds i (waiting k (halfway i k)) (halfway i k).cache w

  abbrev pub job : ℕ → ℕ → Option (ℕ × T × T × T)
  job i k =
      let x = (halfway i k).x in
      if M.dense k then none else some (k, x, (M.gate k x).0, (M.gate k x).1)

  abbrev pub Queue : Option (ℕ × ℕ) → World T S K B → Type 0
  Queue none w = (w.batch ≡ none) × (D.queue w.device ≡ none)
  Queue (some (i, k)) w = (w.batch ≡ none) × (D.queue w.device ≡ job i k)

  -- What is left alone: the other micro-batch, at any stage.
  abbrev pub Same : ℕ → World T S K B → World T S K B → Type 0
  Same j w v = (v.micros j ≡ w.micros j) × (D.view j v.device ≡ D.view j w.device)

  At_same : (σ : Stage) (j l : ℕ) (w v : World T S K B) → Same j w v → At σ j l w → At σ j l v
  At_same Slots.ready j l w v (a, b) (c, d) = (a ∙ c, b ∙ d)
  At_same Slots.attended j l w v (a, b) (c, d) = (a ∙ c, b ∙ d)
  At_same Slots.submitted j l w v (a, b) (c, d) = (a ∙ c, b ∙ d)

  pub Queue_same :
      (q : Option (ℕ × ℕ)) (w v : World T S K B)
      → v.batch ≡ w.batch
      → D.queue v.device ≡ D.queue w.device
      → Queue q w
      → Queue q v
  Queue_same none w v a b (c, d) = (a ∙ c, b ∙ d)
  Queue_same (some (i, k)) w v a b (c, d) = (a ∙ c, b ∙ d)

  submit_attn_lem :
      (i k : ℕ) (w : World T S K B)
      → k < M.layer_num
      → At Slots.ready i k w
      → w.batch ≡ none
      → Next (submit_attn M batches attention i k) w (λ v.
        At Slots.attended i k v
        × ((j : ℕ) → i ≢ j → Same j w v)
        × (v.batch ≡ w.batch)
        × (D.queue v.device ≡ D.queue w.device))
  unfolding submit_attn self_attn
  submit_attn_lem i k w lt (m, v) free =
      let room : ltb k M.layer_num ≡ true = ground arith in
      let same : (i == i) ≡ true = ground arith in
      let f = passed i k in
      let n = M.input_layernorm k f.x f.residual in
      let p = M.project k (M.positions (batches i)) n.0 in
      let (s', run, mine, others, queue) = D.attn_forward_law i k p.0 p.1 p.2 w.device in
      Returns-Next (submit_attn M batches attention i k) w (elim (Bool-cases (M.dense k)) [
        | inl dense ↦
            rw (room, free, m, run, same, dense)
              (
                (rw (same, m, dense, v) refl, mine ∙ rw v refl),
                (λ j ne. (
                  let other : (i == j) ≡ false = ground arith in rw other refl,
                  others j (λ e. ne (sym e)),
                )),
                sym free,
                queue,
              )
        | inr sparse ↦
            rw (room, free, m, run, same, sparse)
              (
                (rw (same, sparse, v) refl, mine ∙ rw v refl),
                (λ j ne. (
                  let other : (i == j) ≡ false = ground arith in rw other refl,
                  others j (λ e. ne (sym e)),
                )),
                sym free,
                queue,
              )
      ])

  submit_moe_lem :
      (i k : ℕ) (w : World T S K B)
      → k < M.layer_num
      → At Slots.attended i k w
      → Queue none w
      → Next
          (submit_moe M i k)
          w
          (λ v. At Slots.submitted i k v × ((j : ℕ) → Same j w v) × Queue (some (i, k)) v)
  unfolding submit_moe
  submit_moe_lem i k w lt (m, v) (free, idle) =
      let room : ltb k M.layer_num ≡ true = ground arith in
      let x = (halfway i k).x in
      let (s', run, views, queue) =
        D.submit_forward_law k x (M.gate k x).0 (M.gate k x).1 w.device idle in
      Returns-Next (submit_moe M i k) w (elim (Bool-cases (M.dense k)) [
        | inl dense ↦ rw (room, m, dense) ((rw dense at m, v), (λ j. (refl, refl)), (free, idle))
        | inr sparse ↦
            rw (room, m, sparse, run)
              ((rw sparse at m, views i ∙ v), (λ j. (refl, views j)), (free, queue))
      ])

  sync_moe_lem :
      (i k : ℕ) (w : World T S K B)
      → k < M.layer_num
      → At Slots.submitted i k w
      → Queue (some (i, k)) w
      → Next
          (sync_moe M i k)
          w
          (λ v. At Slots.ready i (suc k) v × ((j : ℕ) → i ≢ j → Same j w v) × Queue none v)
  unfolding sync_moe after
  sync_moe_lem i k w lt (m, v) (free, work) =
      let room : ltb k M.layer_num ≡ true = ground arith in
      let same : (i == i) ≡ true = ground arith in
      let x = (halfway i k).x in
      Returns-Next (sync_moe M i k) w (elim (Bool-cases (M.dense k)) [
        | inl dense ↦
            rw (room, m, dense)
              ((rw dense at m, v), (λ j ne. (refl, refl)), (free, rw dense at work))
        | inr sparse ↦
            let (s', run, views, queue) =
              D.sync_forward_law k x (M.gate k x).0 (M.gate k x).1 w.device (rw sparse at work) in
            rw (room, m, sparse, run)
              (
                (rw (same, m, sparse) refl, views i ∙ v),
                (λ j ne. (let other : (i == j) ≡ false = ground arith in rw other refl, views j)),
                (free, queue),
              )
      ])

  pub calm : (q : Option (ℕ × ℕ)) (w : World T S K B) → Queue q w → w.batch ≡ none
  calm none w h = h.0
  calm (some (i, k)) w h = h.0

  turns :
      Phases (submit_attn M batches attention) (submit_moe M) (sync_moe M) (return tt) M.layer_num
  turns = record {
    At = At;
    Queue = Queue;
    submit_attn-At = λ i j k l σ q w ne lt here there work.
        let (v, run, (a, others, b, c)) = submit_attn_lem i k w lt here (calm q w work) in
        (v, run, (a, At_same σ j l w v (others j ne) there, Queue_same q w v b c work));
    submit_moe-At = λ i j k l σ w ne lt here there work.
        let (v, run, (a, others, b)) = submit_moe_lem i k w lt here work in
        (v, run, (a, At_same σ j l w v (others j) there, b));
    sync_moe-At = λ i j k l σ w ne lt here there work.
        let (v, run, (a, others, b)) = sync_moe_lem i k w lt here work in
        (v, run, (a, At_same σ j l w v (others j ne) there, b));
    synchronize-At = λ i j k l σ τ w here there work. (w, refl, (here, there, work));
  }

  -- The whole schedule, from two micro-batches at rest.
  pub run_schedule_lem :
      (w : World T S K B)
      → 0 < M.layer_num
      → w.batch ≡ none
      → D.queue w.device ≡ none
      → D.view 0 w.device ≡ D.view 0 start
      → D.view 1 w.device ≡ D.view 1 start
      → w.micros 0 ≡ resting (passed 0 0)
      → w.micros 1 ≡ resting (passed 1 0)
      → Next
          (run_schedule
            (submit_attn M batches attention)
            (submit_moe M)
            (sync_moe M)
            (return tt)
            M.layer_num)
          w
          (λ v.
            (v.micros 0 ≡ resting (passed 0 M.layer_num))
            × (v.micros 1 ≡ resting (passed 1 M.layer_num)))
  unfolding turns after
  run_schedule_lem w pos free idle e0 e1 m0 m1 =
      let (v, run, (here, there, _)) =
        run_schedule-At turns w pos ((m0, e0), (m1, e1), (free, idle)) in
      (v, run, (here.0, there.0))
