-- ===== src/Pipeline/Tasks/Columns.antt =====
-- Tests on the columns of the tables of src/domain/pipeline.ts that the statements share.
use clideck_mcp.Prelude.{ℕ, String, Bool, true, false, Option, none, some, ltb, leb, ◌==◌, str_eq}
use clideck_mcp.Pipeline.Limits.{
  TaskType, technical_answer, technical_answer_review, technical_answer_publication,
  expert_research, demand_diagnosis, source_discovery, source_acquisition, source_conversion,
  source_chunking, fragment_analysis, candidate_verification, candidate_deep_review,
  candidate_publication, source_publication, source_refresh,
}
use clideck_mcp.Pipeline.Tasks.Tables.{TaskStatus, RunStatus}

-- The text of the column, which circuits are joined by.
abbrev pub task_type_text : TaskType → String
task_type_text technical_answer = "technical_answer"
task_type_text technical_answer_review = "technical_answer_review"
task_type_text technical_answer_publication = "technical_answer_publication"
task_type_text expert_research = "expert_research"
task_type_text demand_diagnosis = "demand_diagnosis"
task_type_text source_discovery = "source_discovery"
task_type_text source_acquisition = "source_acquisition"
task_type_text source_conversion = "source_conversion"
task_type_text source_chunking = "source_chunking"
task_type_text fragment_analysis = "fragment_analysis"
task_type_text candidate_verification = "candidate_verification"
task_type_text candidate_deep_review = "candidate_deep_review"
task_type_text candidate_publication = "candidate_publication"
task_type_text source_publication = "source_publication"
task_type_text source_refresh = "source_refresh"

abbrev pub is_type : TaskType → TaskType → Bool
is_type a b = str_eq (task_type_text a) (task_type_text b)

-- aiTaskTypes; mechanicalTaskTypes are the others.
abbrev pub is_ai_task_type : TaskType → Bool
is_ai_task_type technical_answer_publication = false
is_ai_task_type source_acquisition = false
is_ai_task_type source_conversion = false
is_ai_task_type source_chunking = false
is_ai_task_type candidate_publication = false
is_ai_task_type source_publication = false
is_ai_task_type _ = true

-- `status IN ('queued', 'claimed', 'running')`.
abbrev pub is_live : TaskStatus → Bool
is_live TaskStatus.queued = true
is_live TaskStatus.claimed = true
is_live TaskStatus.running = true
is_live _ = false

-- `status IN ('claimed', 'running')`.
abbrev pub is_held : TaskStatus → Bool
is_held TaskStatus.claimed = true
is_held TaskStatus.running = true
is_held _ = false

abbrev pub is_queued : TaskStatus → Bool
is_queued TaskStatus.queued = true
is_queued _ = false

abbrev pub is_running : TaskStatus → Bool
is_running TaskStatus.running = true
is_running _ = false

abbrev pub is_failed : TaskStatus → Bool
is_failed TaskStatus.failed = true
is_failed _ = false

abbrev pub run_is_running : RunStatus → Bool
run_is_running RunStatus.running = true
run_is_running _ = false

-- SQL comparisons: NULL satisfies none of them.
abbrev pub text_is : Option String → String → Bool
text_is none s = false
text_is (some t) s = str_eq t s

abbrev pub id_is : Option ℕ → ℕ → Bool
id_is none id = false
id_is (some i) id = i == id

abbrev pub is_after : Option ℕ → ℕ → Bool
is_after none now = false
is_after (some t) now = ltb now t

abbrev pub is_reached : Option ℕ → ℕ → Bool
is_reached none now = false
is_reached (some t) now = leb t now
