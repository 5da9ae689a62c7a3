-- ===== src/Publication/LifeCycle.antt =====
-- The life of a published result, apart from the operations that move it along.
pub mod Frozen
pub mod Versions
pub mod Artifacts
pub mod Refines
use eduvijna_paper_evaluatio.Prelude.{
  ℕ, ◌≡◌, ◌≢◌, ◌⊎◌, true, Option, some, none, List, [], ◌∷◌, ◌++◌, ◌==◌, String, update, All, Any,
}
use eduvijna_paper_evaluatio.Prelude.Int.{ℤ}
use eduvijna_paper_evaluatio.Grading.Published.{PublishedStatus, PublishedResult}
use eduvijna_paper_evaluatio.Grading.Store.{Request}
use eduvijna_paper_evaluatio.Publication.Tables.{Canonical, QuestionSnapshot, Rendering, Outside}
use eduvijna_paper_evaluatio.Publication.Snapshot.{sum_ℤ}
use eduvijna_paper_evaluatio.Publication.Pipeline.{is_waiting, generating, generated}
use eduvijna_paper_evaluatio.Publication.Publish.{stamped}

-- the totals of a snapshot
abbrev pub final_total : Canonical → ℤ
final_total c = sum_ℤ (λ (q : QuestionSnapshot). q.final_human_approved_score) c.questions

abbrev pub max_total : Canonical → ℤ
max_total c = sum_ℤ (λ (q : QuestionSnapshot). q.max_mark) c.questions

module _ (o : Outside) where
  -- The totals of the row are those of a snapshot with its hash.
  pub record IsHashed (r : PublishedResult) : Type 0 where
    pub canonical : Canonical
    pub hashed : o.snapshot_digest canonical ≡ r.ledger_snapshot_hash
    pub total : r.total_score ≡ final_total canonical
    pub max : r.max_total_score ≡ max_total canonical

  -- One step of the life of a result.
  pub data Move : PublishedResult → PublishedResult → Type 0 where
    begin : (r : PublishedResult) → is_waiting r.status ≡ true → Move r (generating r)
    fail :
        (r : PublishedResult) (code : String)
        → r.status ≡ PublishedStatus.generating
        → Move r (record r { status = PublishedStatus.failed; failure_code = some code })
    generate :
        (r : PublishedResult) (c : Canonical) (made : Rendering)
        → r.status ≡ PublishedStatus.generating
        → o.snapshot_digest c ≡ r.ledger_snapshot_hash
        → Move r (
            generated o
              (record r { total_score = final_total c; max_total_score = max_total c })
              made)
    publish :
        (r : PublishedResult) (req : Request)
        → r.status ≡ PublishedStatus.generated
        → Move r (stamped req r)
    supersede :
        (r : PublishedResult)
        → r.status ≡ PublishedStatus.published
        → Move r (record r { status = PublishedStatus.superseded })

  -- One change of the table: a new READY row whose identifier is new, or the move of a row.
  pub data Change (rows : List PublishedResult) : List PublishedResult → Type 0 where
    add :
        (r : PublishedResult)
        → r.status ≡ PublishedStatus.ready
        → All (λ (x : PublishedResult). x.id ≢ r.id) rows
        → IsHashed r
        → Change rows (rows ++ r ∷ [])
    move :
        (r s : PublishedResult)
        → Any (λ x. x ≡ r) rows
        → Move r s
        → Change rows (update (λ (x : PublishedResult). x.id == s.id) (λ x. s) rows)

  pub data Changes (rows : List PublishedResult) : List PublishedResult → Type 0 where
    nothing : Changes rows rows
    then_change :
        {mid after : List PublishedResult}
        → Changes rows mid
        → Change mid after
        → Changes rows after
