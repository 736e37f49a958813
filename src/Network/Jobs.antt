-- ===== src/Network/Jobs.antt =====
-- src/ocrd_network/constants.py and models/job.py: the states and the inputs of processing jobs.
use ocr_d_core.Common.{
  Bool, true, false, ◌&&◌, ◌≡◌, ◌↔◌, Option, List, arith, Eq, and_true, ◌==◌, Text, codes, list_eq,
  list_beq_iff, nat_eq, option_eq, option_beq_iff,
}
use ocr_d_core.Common.Json.{Json, json_eq_test, json_beq_iff}

pub data AgentType : Type 0 where
  processing_worker processor_server : AgentType

pub data JobState : Type 0 where
  cached cancelled failed queued running success unset : JobState

-- An entry of a list of page ids: a text, or a compiled regular expression (by its pattern).
-- Compiled patterns are equal to one another if their patterns are, and never equal to a text.
pub data PageId : Type 0 where
  literal pattern_of : Text → PageId

abbrev pub page_id_beq : PageId → PageId → Bool
page_id_beq (literal a) (literal b) = a == b
page_id_beq (pattern_of a) (pattern_of b) = a == b
page_id_beq _ _ = false

pub page_id_beq_iff : (a b : PageId) → (page_id_beq a b ≡ true) ↔ (a ≡ b)
page_id_beq_iff (literal a) (literal b) = ground (arith, list_beq_iff a b)
page_id_beq_iff (pattern_of a) (pattern_of b) =
    (λ h. ground (arith, list_beq_iff a b), λ h. ground (arith, list_beq_iff a b))
page_id_beq_iff (literal a) (pattern_of b) = (λ h. cc, λ h. cc)
page_id_beq_iff (pattern_of a) (literal b) = (λ h. cc, λ h. cc)

instance abbrev pub page_id_eq : Eq PageId
page_id_eq = record { same = page_id_beq; same_iff = page_id_beq_iff }

-- SERVER_ALL_PAGES_PLACEHOLDER
abbrev pub all_pages : PageId
all_pages = literal (codes "all_pages")

-- PYJobInput
pub record JobInput : Type 0 where
  pub processor_name : Option Text
  pub path_to_mets : Option Text
  pub workspace_id : Option Text
  pub description : Option Text
  pub input_file_grps : List Text
  pub output_file_grps : Option (List Text)
  pub page_id : Option Text
  pub parameters : Json
  pub result_queue_name : Option Text
  pub callback_url : Option Text
  pub agent_type : AgentType
  pub job_id : Option Text
  pub depends_on : Option (List Text)

abbrev agent_beq : AgentType → AgentType → Bool
agent_beq processing_worker processing_worker = true
agent_beq processor_server processor_server = true
agent_beq _ _ = false

-- Two inputs are equal if all their fields are.
pub job_beq : JobInput → JobInput → Bool
job_beq a b =
    a.processor_name == b.processor_name
    && (a.path_to_mets == b.path_to_mets
        && (a.workspace_id == b.workspace_id
            && (a.description == b.description
                && (a.input_file_grps == b.input_file_grps
                    && (a.output_file_grps == b.output_file_grps
                        && (a.page_id == b.page_id
                            && (a.parameters == b.parameters
                                && (a.result_queue_name == b.result_queue_name
                                    && (a.callback_url == b.callback_url
                                        && (agent_beq a.agent_type b.agent_type
                                            && (a.job_id == b.job_id
                                                && a.depends_on == b.depends_on)))))))))))

option_text : (a b : Option Text) → ((a == b) ≡ true) ↔ (a ≡ b)
option_text a b = option_beq_iff a b

option_texts : (a b : Option (List Text)) → ((a == b) ≡ true) ↔ (a ≡ b)
option_texts a b = option_beq_iff a b

pub job_beq_refl : (a : JobInput) → job_beq a a ≡ true
unfolding job_beq
job_beq_refl a = ground (
  arith,
  option_text a.processor_name a.processor_name,
  option_text a.path_to_mets a.path_to_mets,
  option_text a.workspace_id a.workspace_id,
  option_text a.description a.description,
  list_beq_iff a.input_file_grps a.input_file_grps,
  option_texts a.output_file_grps a.output_file_grps,
  option_text a.page_id a.page_id,
  json_beq_iff a.parameters a.parameters,
  option_text a.result_queue_name a.result_queue_name,
  option_text a.callback_url a.callback_url,
  option_text a.job_id a.job_id,
  option_texts a.depends_on a.depends_on,
)

agent_eq_of_beq : (a b : AgentType) → agent_beq a b ≡ true → a ≡ b
agent_eq_of_beq a b h = ground arith

pub job_eq_of_beq : (a b : JobInput) → job_beq a b ≡ true → a ≡ b
unfolding job_beq
job_eq_of_beq a b h0 =
    let (t0, h1) = and_true (a.processor_name == b.processor_name) _ h0 in
    let (t1, h2) = and_true (a.path_to_mets == b.path_to_mets) _ h1 in
    let (t2, h3) = and_true (a.workspace_id == b.workspace_id) _ h2 in
    let (t3, h4) = and_true (a.description == b.description) _ h3 in
    let (t4, h5) = and_true (a.input_file_grps == b.input_file_grps) _ h4 in
    let (t5, h6) = and_true (a.output_file_grps == b.output_file_grps) _ h5 in
    let (t6, h7) = and_true (a.page_id == b.page_id) _ h6 in
    let (t7, h8) = and_true (a.parameters == b.parameters) _ h7 in
    let (t8, h9) = and_true (a.result_queue_name == b.result_queue_name) _ h8 in
    let (t9, h10) = and_true (a.callback_url == b.callback_url) _ h9 in
    let (t10, h11) = and_true (agent_beq a.agent_type b.agent_type) _ h10 in
    let (t11, h12) = and_true (a.job_id == b.job_id) _ h11 in
    λ i. record {
      processor_name = (option_text a.processor_name b.processor_name).0 t0 i;
      path_to_mets = (option_text a.path_to_mets b.path_to_mets).0 t1 i;
      workspace_id = (option_text a.workspace_id b.workspace_id).0 t2 i;
      description = (option_text a.description b.description).0 t3 i;
      input_file_grps = (list_beq_iff a.input_file_grps b.input_file_grps).0 t4 i;
      output_file_grps = (option_texts a.output_file_grps b.output_file_grps).0 t5 i;
      page_id = (option_text a.page_id b.page_id).0 t6 i;
      parameters = (json_beq_iff a.parameters b.parameters).0 t7 i;
      result_queue_name = (option_text a.result_queue_name b.result_queue_name).0 t8 i;
      callback_url = (option_text a.callback_url b.callback_url).0 t9 i;
      agent_type = agent_eq_of_beq a.agent_type b.agent_type t10 i;
      job_id = (option_text a.job_id b.job_id).0 t11 i;
      depends_on = (option_texts a.depends_on b.depends_on).0 h12 i;
    }

pub job_beq_iff : (a b : JobInput) → (job_beq a b ≡ true) ↔ (a ≡ b)
job_beq_iff a b = (job_eq_of_beq a b, λ h. rw h (job_beq_refl b))

instance abbrev pub job_eq : Eq JobInput
job_eq = record { same = job_beq; same_iff = job_beq_iff }
