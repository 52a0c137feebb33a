-- ===== src/Server/BatchRules.antt =====
-- The rules for the operations on batches.
use video_encoder_service.Prelude.{
  inl, inr, ℕ, String, ◌≡◌, sym, ◌∙◌, List, All, Option-cases, Bool-cases, str_eq, arith, subst,
}
use video_encoder_service.Prelude.Dict
use mathlib.Core.Option.{some-injective}
use video_encoder_service.Types.Triple.{Ensures}
use video_encoder_service.Batches.Service.{
  Batch, BatchStatus, create_batch, get_batch, update_batch_status, get_batch_stats, put_batch,
  set_batch_status,
}
use video_encoder_service.Server.State.{Server, on_batches}
use video_encoder_service.Server.Batching.{current_batch}
use video_encoder_service.Server.Sound.{Heap, IsPointer, IsSound, Knows}
use video_encoder_service.Server.Serves.{Nothing}

-- The pointers of a batch lead to jobs.
abbrev pub Leads : Batch → Heap → Type 0
Leads b h = All (IsPointer h) b.jobs

pub put-IsSound :
    (s : Server) (b : Batch)
    → IsSound s
    → Leads b s.world.jobs.heap
    → IsSound (record s { batches = Dict.insert b.id b s.batches })
put-IsSound s b i leads = record {
  valid = i.valid;
  queued = i.queued;
  entries = i.entries;
  batched = λ j c look.
      let split = Dict.lookup-insert b.id j b s.batches in
      elim (Bool-cases (str_eq b.id j)) [
        | inl same ↦
            subst (λ c. Leads c s.world.jobs.heap)
              (some-injective _ _ (sym (rw same at split) ∙ look)) leads
        | inr other ↦ i.batched j c (sym (rw other at split) ∙ look)
      ];
}

pub Ensures-create_batch :
    (id : String) (ps : List ℕ) (now : ℕ)
    → Ensures
        (Knows (λ h. All (IsPointer h) ps))
        (Knows (λ h. All (IsPointer h) ps))
        (λ b. Knows (Leads b))
        (on_batches (create_batch id ps now))
unfolding on_batches create_batch put_batch
Ensures-create_batch id ps now = record {
  at = λ s k. elim (Option-cases (Dict.lookup id s.batches)) [
    | inl free ↦ rw free (record { sound = put-IsSound s _ k.sound k.known; known = k.known })
    | inr (b, taken) ↦ rw taken k
  ];
}

pub Ensures-get_batch :
    (id : String)
    → Ensures (Knows Nothing) (Knows Nothing) (λ b. Knows (Leads b)) (on_batches (get_batch id))
unfolding on_batches get_batch
Ensures-get_batch id = record {
  at = λ s k. elim (Option-cases (Dict.lookup id s.batches)) [
    | inl missing ↦ rw missing k
    | inr (b, found) ↦ rw found (record { sound = k.sound; known = k.sound.batched id b found })
  ];
}

status-jobs :
    (status : BatchStatus) (now : ℕ) (b : Batch) → (set_batch_status status now b).jobs ≡ b.jobs
unfolding set_batch_status
status-jobs status now b = ground arith

pub Ensures-update :
    {F : Heap → Type 0} (id : String) (now : ℕ)
    → Ensures (Knows F) (Knows F) (λ _. Knows F) (on_batches (update_batch_status id now))
unfolding on_batches update_batch_status put_batch
Ensures-update id now = record {
  at = λ s k. elim (Option-cases (Dict.lookup id s.batches)) [
    | inl missing ↦ rw missing k
    | inr (b, found) ↦ rw found (record {
      sound = put-IsSound s _ k.sound (
          subst (λ ps. All (IsPointer s.world.jobs.heap) ps) (sym (status-jobs _ now b))
            (k.sound.batched id b found));
      known = k.known;
    })
  ];
}

pub Ensures-stats :
    {F : Heap → Type 0} (id : String)
    → Ensures (Knows F) (Knows F) (λ _. Knows F) (on_batches (get_batch_stats id))
unfolding on_batches get_batch_stats
Ensures-stats id = record {
  at = λ s k. elim (Option-cases (Dict.lookup id s.batches)) [
    | inl missing ↦ rw missing k
    | inr (b, found) ↦ rw found k
  ];
}

pub current-Leads :
    (b : Batch) (s : Server) → Knows (Leads b) s → Knows (Leads (current_batch b s)) s
current-Leads b s k = elim (Option-cases (Dict.lookup b.id s.batches)) [
  | inl missing ↦ rw (missing, current_batch) k
  | inr (c, found) ↦
      rw (found, current_batch) (record { sound = k.sound; known = k.sound.batched b.id c found })
]
