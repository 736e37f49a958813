-- ===== src/Network/Server/Push.antt =====
-- Sending a job to its network agent: push_job_to_network_agent of
-- src/ocrd_network/processing_server.py, with the checks of OcrdProcessingMessage.
use ocr_d_core.Common.{
  Bool, true, false, none, some, [], ◌∷◌, ◌++◌, Text, if◌then◌else◌, nat_beq, is_nonempty,
}
use ocr_d_core.Common.Exec.{Result, ok, err, Exec, http}
use ocr_d_core.Network.Jobs.{processing_worker, processor_server, JobInput}
use ocr_d_core.Network.Database.{ProcessorJob}
use ocr_d_core.Network.Server.{
  Server, Services, Output, job_output, answer, to_job_output, is_set, is_some_json,
}

-- Whether OcrdProcessingMessage accepts the fields of the job, else ValueError. The time is set.
unfoldable pub is_valid_message : ProcessorJob → Bool
is_valid_message job =
    if is_set job.job_id
    then (if is_set job.processor_name
        then (if is_nonempty job.input_file_grps
            then (if is_set job.workspace_id then true else is_set job.path_to_mets)
            else false)
        else false)
    else false

-- `push_job_to_processing_queue`: its result.
unfoldable pub push_job_to_processing_queue : Services → ProcessorJob → Result Output
push_job_to_processing_queue services db_job =
    if services.is_connected_to_rabbitmq
    then (if is_valid_message db_job
        then (if services.publish_to_queue db_job
            then ok (job_output (to_job_output db_job))
            else err (http 500))
        else err (http 422))
    else err (http 500)

-- `push_job_to_processor_server` and `forward_job_to_processor_server`: the result is the body of
-- the answer, not a PYJobOutput.
unfoldable pub push_job_to_processor_server : Services → JobInput → Result Output
push_job_to_processor_server services job_input =
    let name : Text = elim job_input.processor_name [ none ↦ [] | some t ↦ t ] in
    elim (services.post_run (services.resolve_processor_server_url name) job_input) [
      | err e ↦ err e
      | ok (code, body) ↦
          if nat_beq code 202
          then (if is_some_json (some body) then ok (answer body) else err (http 500))
          else err (http 500)
    ]

unfoldable pub push_result : Services → JobInput → ProcessorJob → Result Output
push_result services job_input db_job = elim job_input.agent_type [
  | processing_worker ↦ push_job_to_processing_queue services db_job
  | processor_server ↦ push_job_to_processor_server services job_input
]

-- `push_job_to_network_agent`
unfoldable pub push_job_to_network_agent : Services → JobInput → ProcessorJob → Exec Server Output
push_job_to_network_agent services job_input db_job s =
    elim (push_result services job_input db_job) [
      | err e ↦ (err e, s)
      | ok output ↦ (ok output, record s { pushed = s.pushed ++ job_input ∷ [] })
    ]
