-- ===== src/Dual/Stages.antt =====
-- Each call of `DeepseekV2DualBatchRunner._run_pipeline` takes its micro-batch one stage further, and
-- leaves the other where it is.
use flash_kvmo_e.Base.{
  ap, ℕ, zero, suc, ◌<◌, ◌≡◌, ◌≢◌, refl, ◌∙◌, sym, inl, inr, Bool-cases, Option, none, some, ◌==◌,
  ltb, true, false, if◌then◌else◌, arith,
}
use flash_kvmo_e.Dual.Run.{Next, Returns-Next, return}
use flash_kvmo_e.Dual.State.{Model, Micro, World, self_attn}
use flash_kvmo_e.Dual.Device.{Device, Flow, after}
use flash_kvmo_e.Dual.Schedule.{run_schedule}
use flash_kvmo_e.Dual.Slots
use flash_kvmo_e.Dual.Slots.{Stage, Phases, run_schedule-At}
use flash_kvmo_e.Dual.Turns.{passed, halfway, resting, Holds, Queue, Queue_same, Same, calm}
use flash_kvmo_e.Dual.Deepseek.{add_shared, submit_attn, submit_moe, sync_moe}

module _ {T S K B V : Type 0} (M : Model T S K B) (batches : ℕ → B) (attention : ℕ → K)
    (D : Device M batches attention V) (start : S) where
  abbrev come : ℕ → ℕ → Flow T V
  come = passed M batches attention D start

  abbrev half : ℕ → ℕ → Flow T V
  half = halfway M batches attention D start

  abbrev at_rest : Flow T V → Micro T
  at_rest = resting M batches attention D start

  -- What the shared experts gave is still to be added, behind a layer with experts.
  abbrev pub unmerged : ℕ → ℕ → Micro T
  unmerged i zero = at_rest (come i zero)
  unmerged i (suc k) =
      let f = half i k in
      if M.dense k then at_rest (come i (suc k)) else record {
        hidden_states = D.experts k f.x (M.gate k f.x).0 (M.gate k f.x).1;
        residual = f.residual;
        shared = some (M.shared_experts k f.x);
        topk_ids = none;
        topk_weights = none;
      }

  abbrev waiting : ℕ → Flow T V → Micro T
  waiting k f = if M.dense k then at_rest f else record {
    hidden_states = f.x;
    residual = f.residual;
    shared = some (M.shared_experts k f.x);
    topk_ids = some (M.gate k f.x).0;
    topk_weights = some (M.gate k f.x).1;
  }

  -- A dense layer is run by the submission.
  abbrev working : ℕ → ℕ → Micro T
  working i k = if M.dense k then at_rest (come i (suc k)) else waiting k (half i k)

  abbrev Hold : ℕ → Micro T → V → World T S K B → Type 0
  Hold = Holds M batches attention D start

  abbrev At : Stage → ℕ → ℕ → World T S K B → Type 0
  At Slots.ready i k w = Hold i (unmerged i k) (come i k).cache w
  At Slots.attended i k w = Hold i (waiting k (half i k)) (half i k).cache w
  At Slots.submitted i k w = Hold i (working i k) (half i k).cache w

  abbrev Open : Option (ℕ × ℕ) → World T S K B → Type 0
  Open = Queue M batches attention D start

  abbrev Kept : ℕ → World T S K B → World T S K B → Type 0
  Kept = Same M batches attention D start

  At_same : (σ : Stage) (j l : ℕ) (w v : World T S K B) → Kept j w v → At σ j l w → At σ j l v
  At_same Slots.ready j l w v (a, b) (c, d) = (a ∙ c, b ∙ d)
  At_same Slots.attended j l w v (a, b) (c, d) = (a ∙ c, b ∙ d)
  At_same Slots.submitted j l w v (a, b) (c, d) = (a ∙ c, b ∙ d)

  -- Adding the shared result makes it the flow again.
  pub add_shared-unmerged : (i k : ℕ) → add_shared M (unmerged i k) ≡ at_rest (come i k)
  unfolding after
  add_shared-unmerged i zero = refl
  add_shared-unmerged i (suc k) = elim (Bool-cases (M.dense k)) [
    | inl dense ↦ rw dense refl
    | inr sparse ↦ rw sparse refl
  ]

  submit_attn_lem :
      (i k : ℕ) (w : World T S K B)
      → k < M.layer_num
      → At Slots.ready i k w
      → w.batch ≡ none
      → Next (submit_attn M batches attention i k) w (λ v.
        At Slots.attended i k v
        × ((j : ℕ) → i ≢ j → Kept j w v)
        × (v.batch ≡ w.batch)
        × (D.queue v.device ≡ D.queue w.device))
  unfolding submit_attn self_attn
  submit_attn_lem i k w lt (m, v) free =
      let room : ltb k M.layer_num ≡ true = ground arith in
      let same : (i == i) ≡ true = ground arith in
      let merged : add_shared M (w.micros i) ≡ at_rest (come i k) =
        ap (add_shared M) m ∙ add_shared-unmerged i k in
      let f = come i k in
      let n = M.input_layernorm k f.x f.residual in
      let p = M.project k (M.positions (batches i)) n.0 in
      let (s', run, mine, others, queue) = D.attn_forward_law i k p.0 p.1 p.2 w.device in
      Returns-Next (submit_attn M batches attention i k) w (elim (Bool-cases (M.dense k)) [
        | inl dense ↦
            rw (room, free, same, merged, run, same, dense)
              (
                (rw (same, merged, dense, v) refl, mine ∙ rw v refl),
                (λ j ne. (
                  let other : (i == j) ≡ false = ground arith in rw other refl,
                  others j (λ e. ne (sym e)),
                )),
                sym free,
                queue,
              )
        | inr sparse ↦
            rw (room, free, same, merged, run, same, sparse)
              (
                (rw (same, sparse, v) refl, mine ∙ rw v refl),
                (λ j ne. (
                  let other : (i == j) ≡ false = ground arith in rw other refl,
                  others j (λ e. ne (sym e)),
                )),
                sym free,
                queue,
              )
      ])

  submit_moe_lem :
      (i k : ℕ) (w : World T S K B)
      → k < M.layer_num
      → At Slots.attended i k w
      → Open none w
      → Next
          (submit_moe M i k)
          w
          (λ v. At Slots.submitted i k v × ((j : ℕ) → i ≢ j → Kept j w v) × Open (some (i, k)) v)
  unfolding submit_moe after
  submit_moe_lem i k w lt (m, v) (free, idle) =
      let room : ltb k M.layer_num ≡ true = ground arith in
      let same : (i == i) ≡ true = ground arith in
      let x = (half i k).x in
      let (s', run, views, queue) =
        D.submit_forward_law k x (M.gate k x).0 (M.gate k x).1 w.device idle in
      Returns-Next (submit_moe M i k) w (elim (Bool-cases (M.dense k)) [
        | inl dense ↦
            rw (room, dense)
              (
                (rw (same, m, dense) refl, v),
                (λ j ne. (let other : (i == j) ≡ false = ground arith in rw other refl, refl)),
                (free, idle),
              )
        | inr sparse ↦
            rw (room, m, sparse, run)
              ((rw sparse at m, views i ∙ v), (λ j ne. (refl, views j)), (free, queue))
      ])

  sync_moe_lem :
      (i k : ℕ) (w : World T S K B)
      → k < M.layer_num
      → At Slots.submitted i k w
      → Open (some (i, k)) w
      → Next
          (sync_moe M i k)
          w
          (λ v. At Slots.ready i (suc k) v × ((j : ℕ) → i ≢ j → Kept j w v) × Open none v)
  unfolding sync_moe after
  sync_moe_lem i k w lt (m, v) (free, work) =
      let room : ltb k M.layer_num ≡ true = ground arith in
      let same : (i == i) ≡ true = ground arith in
      let x = (half i k).x in
      Returns-Next (sync_moe M i k) w (elim (Bool-cases (M.dense k)) [
        | inl dense ↦
            rw (room, dense) ((rw dense at m, v), (λ j ne. (refl, refl)), (free, rw dense at work))
        | inr sparse ↦
            let (s', run, views, queue) =
              D.sync_forward_law k x (M.gate k x).0 (M.gate k x).1 w.device (rw sparse at work) in
            let m' = rw sparse at m in
            rw (room, m', sparse, run)
              (
                (rw (same, m') refl, views i ∙ v),
                (λ j ne. (let other : (i == j) ≡ false = ground arith in rw other refl, views j)),
                (free, queue),
              )
      ])

  stages :
      Phases (submit_attn M batches attention) (submit_moe M) (sync_moe M) (return tt) M.layer_num
  stages = record {
    At = At;
    Queue = Open;
    submit_attn-At = λ i j k l σ q w ne lt here there work.
        let (v, run, (a, others, b, c)) =
          submit_attn_lem i k w lt here (calm M batches attention D start q w work) in
        (
          v,
          run,
          (
            a,
            At_same σ j l w v (others j ne) there,
            Queue_same M batches attention D start q w v b c work,
          ),
        );
    submit_moe-At = λ i j k l σ w ne lt here there work.
        let (v, run, (a, others, b)) = submit_moe_lem i k w lt here work in
        (v, run, (a, At_same σ j l w v (others j ne) there, b));
    sync_moe-At = λ i j k l σ w ne lt here there work.
        let (v, run, (a, others, b)) = sync_moe_lem i k w lt here work in
        (v, run, (a, At_same σ j l w v (others j ne) there, b));
    synchronize-At = λ i j k l σ τ w here there work. (w, refl, (here, there, work));
  }

  -- The whole schedule, from two micro-batches at rest.
  pub run_schedule_lem :
      (w : World T S K B)
      → 0 < M.layer_num
      → w.batch ≡ none
      → D.queue w.device ≡ none
      → D.view 0 w.device ≡ D.view 0 start
      → D.view 1 w.device ≡ D.view 1 start
      → w.micros 0 ≡ at_rest (come 0 0)
      → w.micros 1 ≡ at_rest (come 1 0)
      → Next
          (run_schedule
            (submit_attn M batches attention)
            (submit_moe M)
            (sync_moe M)
            (return tt)
            M.layer_num)
          w
          (λ v. (v.micros 0 ≡ unmerged 0 M.layer_num) × (v.micros 1 ≡ unmerged 1 M.layer_num))
  unfolding stages after
  run_schedule_lem w pos free idle e0 e1 m0 m1 =
      let (v, run, (here, there, _)) =
        run_schedule-At stages w pos ((m0, e0), (m1, e1), (free, idle)) in
      (v, run, (here.0, there.0))
