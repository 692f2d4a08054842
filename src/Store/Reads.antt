-- ===== src/Store/Reads.antt =====
-- src/state/store.ts: the reads of one job.
use livis_chatgpt_bridge.Prelude.{Option, none, some, String}
use livis_chatgpt_bridge.Types.{StoredJob}
use livis_chatgpt_bridge.Store.Schema.{Database, JobRow, row_to_job, is_job, is_outbox}
use livis_chatgpt_bridge.Store.Table.{select}
use livis_chatgpt_bridge.Store.Monad.{M, ◌>>=◌, pure, throw, query, job_not_found}

unfoldable pub view : Database → Option JobRow → Option StoredJob
view db none = none
view db (some row) = some (row_to_job row (select (is_outbox row.scope_key row.job_id) db.outbox))

unfoldable pub found : Option StoredJob → M StoredJob
found none = throw job_not_found
found (some job) = pure job

module _ (scope : String) where
  unfoldable pub get : String → Database → Option StoredJob
  unfolding view
  get job_id db = view db (select (is_job scope job_id) db.jobs)

  unfoldable pub require : String → M StoredJob
  unfolding found
  require job_id = query (get job_id) >>= found
