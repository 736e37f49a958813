-- ===== src/Network/Database.antt =====
-- The collection of processing jobs: class DBProcessorJob of src/ocrd_network/models/job.py and the
-- functions of src/ocrd_network/database.py on it. Documents keep the order of their insertion, and
-- a search gives the first that fits.
use ocr_d_core.Common.{Option, none, some, [], ◌∷◌, ◌++◌, Text, list_eq, nat_eq}
use ocr_d_core.Common.Dict.{Dict, get, put}
use ocr_d_core.Network.Jobs.{JobInput, JobState}

-- The fields of a request are those of `input`. The times and the log file, which only the workers
-- write, are left out.
pub record ProcessorJob : Type 0 where
  pub input : JobInput
  pub open input use *
  pub internal_callback_url : Text
  pub state : JobState

-- Job id and document.
abbrev pub Database : Type 0
Database = Dict Text ProcessorJob

-- `DBProcessorJob.insert`
unfoldable pub insert_job : Text → ProcessorJob → Database → Database
insert_job job_id job db = db ++ (job_id, job) ∷ []

-- `db_get_processing_job`; `none` is ValueError.
unfoldable pub db_get_processing_job : Text → Database → Option ProcessorJob
db_get_processing_job job_id db = get job_id db

-- `db_update_processing_job(job_id, state=state)`; `none` is ValueError.
unfoldable pub db_update_processing_job :
    Text → JobState → Database → Option (ProcessorJob × Database)
db_update_processing_job job_id state db = elim (get job_id db) [
  | none ↦ none
  | some job ↦ some (record job { state = state }, put job_id (record job { state = state }) db)
]
