-- ===== src/Transactions/Finish/Applied.antt =====
-- What the operations of a transaction do to the records of pipelines (applyCreate, applyUpdate and
-- the second phase of finishTransaction).
use mathlib.Core.Path.{subst}
use sandman.Prelude.{
  Bytes, ℕ, ◌+◌, ◌≤◌, ◌<◌, ◌≡◌, ◌⊎◌, refl, ap, ◌∙◌, Bool, true, false, not, ◌&&◌, Option, none,
  some, [], if◌then◌else◌, inl, inr, eqs, eqs-false, arith,
}
use sandman.Prelude.Decimal.{digits, digits_inj}
use sandman.Prelude.Map.{Map, get, put, get-put, get-put_self}
use sandman.Prelude.Result.{Result, ok, err, Done}
use sandman.Store.Data.{Error}
use sandman.Pipelines.Inputs.{input_sides}
use sandman.Pipelines.Declared.{Pipeline}
use sandman.Pipelines.Records.{
  PipelineRec, readable, Pipes, Outside, load_pipeline, archived, versions_of, with_store,
  archive_version, write_spec_commit, write_marshalled, spec_message, rec_in,
}
use sandman.Pipelines.Applying.{
  commit_rec, create_rest, apply_create, drop_dedup, stats_disabled, update_derived, apply_update,
  derive_input, ensure_repo, start_tickers, initial_rec, next_rec, UpdateError,
}
use sandman.Pipelines.Validate.Sides.{is_ok}
use sandman.Transactions.Finish.Undo.{IsSame}

write_marshalled_recs :
    (o : Outside) (d : Pipes) (message : Bytes) (b : Option Bytes)
    → ((write_marshalled o d message b).0.recs ≡ d.recs)
      × ((write_marshalled o d message b).0.versions ≡ d.versions)
write_marshalled_recs o d message none = (refl, refl)
write_marshalled_recs o d message (some b) = (refl, refl)

write_spec_recs :
    (o : Outside) (d : Pipes) (name : Bytes) (spec : Pipeline) (version : ℕ)
    → ((write_spec_commit o d name spec version).0.recs ≡ d.recs)
      × ((write_spec_commit o d name spec version).0.versions ≡ d.versions)
unfolding write_spec_commit
write_spec_recs o d name spec version =
    write_marshalled_recs o d (spec_message name version) (o.marshal spec)

module _ (o : Outside) (d : Pipes) (name : Bytes) (rec : PipelineRec) where
  commit_rec_other :
      (n : Bytes) → eqs rec.pipeline.name n ≡ false → IsSame n d (commit_rec o d name rec).0
  unfolding commit_rec archive_version
  commit_rec_other n h =
      let w = write_spec_commit o d name rec.pipeline rec.version in
      let done = record rec { spec_commit = w.1 } in
      let same = write_spec_recs o d name rec.pipeline rec.version in
      (
        get-put rec.pipeline.name n (readable done) w.0.recs ∙ rw h (ap (get n) same.0),
        get-put rec.pipeline.name n
              (put (digits rec.version) done (versions_of w.0.versions rec.pipeline.name))
              w.0.versions
            ∙ rw h (ap (get n) same.1),
      )

  commit_rec_own :
      load_pipeline (commit_rec o d name rec).0 rec.pipeline.name ≡ some (commit_rec o d name rec).1
  unfolding commit_rec archive_version load_pipeline
  commit_rec_own =
      let w = write_spec_commit o d name rec.pipeline rec.version in
      ap rec_in
        (get-put_self rec.pipeline.name (readable (record rec { spec_commit = w.1 })) w.0.recs)

  commit_rec_version : (commit_rec o d name rec).1.version ≡ rec.version
  unfolding commit_rec
  commit_rec_version = refl

  archived-commit_rec :
      (b : ℕ)
      → archived (commit_rec o d name rec).0 rec.pipeline.name b ≡ (
          if eqs (digits rec.version) (digits b)
          then some (commit_rec o d name rec).1
          else archived d rec.pipeline.name b)
  unfolding commit_rec archive_version
  archived-commit_rec b =
      let w = write_spec_commit o d name rec.pipeline rec.version in
      let done = record rec { spec_commit = w.1 } in
      let old = versions_of w.0.versions rec.pipeline.name in
      ap (λ (m : Option (Map PipelineRec)). get (digits b) (elim m [ none ↦ [] | some v ↦ v ]))
        (get-put_self rec.pipeline.name (put (digits rec.version) done old) w.0.versions)
      ∙ get-put (digits rec.version) (digits b) done old
      ∙ ap
          (λ (m : Map (Map PipelineRec)).
            if eqs (digits rec.version) (digits b)
            then some done
            else get (digits b) (versions_of m rec.pipeline.name))
          (write_spec_recs o d name rec.pipeline rec.version).1

  digits_differ : (v b : ℕ) → b < v → eqs (digits v) (digits b) ≡ false
  digits_differ v b h =
      eqs-false (digits v) (digits b) (λ e. let k = digits_inj v b e in omega arith)

  commit_rec_kept :
      (n : Bytes) (b : ℕ)
      → rec.pipeline.name ≡ n
      → b < rec.version
      → (archived (commit_rec o d name rec).0 n b ≡ archived d n b)
        × (load_pipeline (commit_rec o d name rec).0 n ≡ some (commit_rec o d name rec).1)
  commit_rec_kept n b e l =
      subst
        (λ (m : Bytes).
          (archived (commit_rec o d name rec).0 m b ≡ archived d m b)
          × (load_pipeline (commit_rec o d name rec).0 m ≡ some (commit_rec o d name rec).1))
        e (archived-commit_rec b ∙ rw (digits_differ rec.version b l) refl, commit_rec_own)

module _ (o : Outside) (n : Bytes) where
  -- A creation of another name, or one that fails.
  create_rest_other :
      (d : Pipes) (p : Pipeline) (r : Result Error Done)
      → (is_ok (create_rest o d p r).1 ≡ false) ⊎ (eqs p.name n ≡ false)
      → IsSame n d (create_rest o d p r).0
  create_rest_other d p (err x) h = (refl, refl)
  create_rest_other d p (ok done) (inl h) = cc
  create_rest_other d p (ok done) (inr h) =
      commit_rec_other o
        (record d { tickers = start_tickers o p.name (input_sides p.input) d.tickers }) p.name
        (initial_rec p) n h

  pub apply_create_other :
      (d : Pipes) (p : Pipeline)
      → (is_ok (apply_create o d p).1 ≡ false) ⊎ (eqs p.name n ≡ false)
      → IsSame n d (apply_create o d p).0
  unfolding apply_create
  apply_create_other d p h =
      let i = derive_input o.env p.name d.daemon.store p.input in
      let q = record p { update = false; input = i.1 } in
      let r = ensure_repo o.env i.0 p.name in
      create_rest_other (with_store (with_store d i.0) r.0) q r.1 h

  pub apply_update_other :
      (d : Pipes) (rec : PipelineRec) (p : Pipeline)
      → (is_ok (apply_update o d rec p).1 ≡ false) ⊎ (eqs p.name n ≡ false)
      → IsSame n d (apply_update o d rec p).0
  unfolding apply_update
  apply_update_other d rec p h = at (rec.pipeline.enable_stats && not p.enable_stats) h
    where
      at :
          (b : Bool)
          → (is_ok
                (if◌then◌else◌ {A = Pipes × Result UpdateError PipelineRec} b
                  (d, err stats_disabled)
                  (update_derived o d rec p)).1
              ≡ false)
            ⊎ (eqs p.name n ≡ false)
          → IsSame n d
              (if◌then◌else◌ {A = Pipes × Result UpdateError PipelineRec} b
                (d, err stats_disabled)
                (update_derived o d rec p)).0
      at true h = (refl, refl)
      at false (inl h) = cc
      at false (inr h) =
          let i = derive_input o.env p.name d.daemon.store p.input in
          let q = record p { update = false; input = i.1 } in
          let e = record (with_store d i.0) {
            tickers = start_tickers o p.name (input_sides q.input) d.tickers;
            dedup = drop_dedup o rec q d.dedup;
          } in
          commit_rec_other o e rec.pipeline.name (next_rec rec q) n h

  -- What an update of the name itself leaves in its archive, and its version.
  pub apply_update_own :
      (d : Pipes) (rec : PipelineRec) (p : Pipeline) (b : ℕ)
      → is_ok (apply_update o d rec p).1 ≡ true
      → p.name ≡ n
      → b ≤ rec.version
      → (archived (apply_update o d rec p).0 n b ≡ archived d n b)
        × ((new : PipelineRec) × (load_pipeline (apply_update o d rec p).0 n ≡ some new)
            × (new.version ≡ rec.version + 1))
  unfolding apply_update
  apply_update_own d rec p b h e l = at (rec.pipeline.enable_stats && not p.enable_stats) h
    where
      at :
          (c : Bool)
          → is_ok
              (if◌then◌else◌ {A = Pipes × Result UpdateError PipelineRec} c
                (d, err stats_disabled)
                (update_derived o d rec p)).1
            ≡ true
          → (archived
                (if◌then◌else◌ {A = Pipes × Result UpdateError PipelineRec} c
                  (d, err stats_disabled)
                  (update_derived o d rec p)).0
                n
                b
              ≡ archived d n b)
            × ((new : PipelineRec) × (load_pipeline
                    (if◌then◌else◌ {A = Pipes × Result UpdateError PipelineRec} c
                      (d, err stats_disabled)
                      (update_derived o d rec p)).0
                    n
                  ≡ some new)
                × (new.version ≡ rec.version + 1))
      at true h = cc
      at false h =
          let i = derive_input o.env p.name d.daemon.store p.input in
          let q = record p { update = false; input = i.1 } in
          let e' = record (with_store d i.0) {
            tickers = start_tickers o p.name (input_sides q.input) d.tickers;
            dedup = drop_dedup o rec q d.dedup;
          } in
          let kept =
            commit_rec_kept o e' rec.pipeline.name (next_rec rec q) n b e (omega (arith, l)) in
          (
            kept.0,
            (
              (commit_rec o e' rec.pipeline.name (next_rec rec q)).1,
              kept.1,
              commit_rec_version o e' rec.pipeline.name (next_rec rec q),
            ),
          )
