-- ===== src/Pipeline/Work.antt =====
-- Calls of the training job (`_run_upload_pipeline` of backend/routes/upload.py) on the database, and
-- what they raise: a `PipelineError` (backend/exceptions.py) with its message and kind, or any other
-- exception.
use autonomous_ai_analyst.Base.{ℕ, String, List, [], ◌∷◌, Option, none, some}
use autonomous_ai_analyst.Jobs.{append_step}
use autonomous_ai_analyst.Database.{Database}

pub data Kind : Type 0 where
  dataset target training artifact pipeline : Kind

-- `PipelineError.kind`
abbrev pub kind_name : Kind → String
kind_name dataset = "dataset"
kind_name target = "target"
kind_name training = "training"
kind_name artifact = "artifact"
kind_name pipeline = "pipeline"

pub data Fault : Type 0 where
  rejected : String → Kind → Fault
  crashed : String → Fault

pub data Attempt (A : Type 0) : Type 0 where
  ok : A → Attempt A
  raised : Fault → Attempt A

abbrev pub Work : Type 0 → Type 0
Work A = Database → Attempt A × Database

module _ {A : Type 0} where
  abbrev pub pure : A → Work A
  pure a db = (ok a, db)

  abbrev pub raise : Fault → Work A
  raise e db = (raised e, db)

  -- A call that reads and writes no table.
  abbrev pub attempt : Attempt A → Work A
  attempt r db = (r, db)

  abbrev pub or_crash : Option A → String → Work A
  or_crash none text = raise (crashed text)
  or_crash (some a) text = pure a

abbrev pub go_on : {A B : Type 0} → Attempt A → (A → Work B) → Work B
go_on (ok a) f = f a
go_on (raised e) f = raise e

-- Shut, so that what holds of the parts of a `do` block can be said of the whole.
infixl 5 ◌>>=◌ ◌>>◌
unfoldable pub ◌>>=◌ : {A B : Type 0} → Work A → (A → Work B) → Work B
◌>>=◌ m f db = let (r, db') = m db in go_on r f db'

unfoldable pub ◌>>◌ : {A B : Type 0} → Work A → Work B → Work B
unfolding ◌>>=◌
m >> k = m >>= λ _. k

-- `clock` is the moment at which a step of this text is reported.
module _ (clock : String → ℕ) (job_id : String) where
  abbrev pub report : String → ℕ → Work (Unit {0})
  report step progress db =
      (ok tt, record db { jobs = append_step job_id step progress (clock step) db.jobs })

  -- `for warn in warnings: db.append_step(job_id, warn, progress)`
  unfoldable pub report_all : List String → ℕ → Work (Unit {0})
  report_all [] progress = pure tt
  report_all (step ∷ steps) progress = report step progress >> report_all steps progress
