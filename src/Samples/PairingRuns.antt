-- ===== src/Samples/PairingRuns.antt =====
-- The theorem on the check for a running job, run on the job that newJobRec makes for two heads.
use sandman.Prelude.{codes, ◌≡◌, ◌↔◌, true, List, [], ◌∷◌, Elem, All}
use sandman.Prelude.Unique.{IsUnique}
use sandman.Store.Data.{Commit}
use sandman.Store.Records.{to_commit}
use sandman.Jobs.Deletion.{Job}
use sandman.Jobs.Pairing.{has_running_job_with_inputs, new_job_rec}
use sandman.Jobs.Pairing.Siblings.{IsSibling, has_running_job_with_inputs_lem, new_job_rec-IsUnique}
use sandman.Samples.{first_rec, second_rec}

abbrev two_heads : List Commit
two_heads = to_commit first_rec ∷ to_commit second_rec ∷ []

abbrev new_job : Job
new_job = new_job_rec [] (codes "p") 1 two_heads (codes "j")

one_job-IsUnique : All (λ (j : Job). IsUnique j.input_commits) (new_job ∷ [])
one_job-IsUnique = (new_job_rec-IsUnique [] (codes "p") 1 two_heads (codes "j"), tt)

has_running_job_with_inputs_lem_example :
    (has_running_job_with_inputs (new_job ∷ []) (codes "p") two_heads ≡ true)
    ↔ ((j : Job) × Elem j (new_job ∷ []) × IsSibling (codes "p") two_heads j)
has_running_job_with_inputs_lem_example =
    has_running_job_with_inputs_lem (codes "p") two_heads (new_job ∷ []) one_job-IsUnique
