-- ===== src/Orchestration/Prompt.antt =====
-- `PromptBuilder.build` of backend/app/services/orchestration.py, for the context that
-- `ContextBuilder.build` read: the messages of a request.
use wes.Base.{
  Option, none, some, List, [], ◌∷◌, ◌++◌, if◌then◌else◌, take, map, Text, codes, is_nonempty,
}
use wes.Orchestration.State.{Message, MessageRole}

pub record Titled : Type 0 where
  pub label : Text
  pub title : Text

pub record RepositoryContext : Type 0 where
  pub name : Text
  pub primary_language : Text
  pub architecture : List Titled
  pub files : List Text

pub record TaskContext : Type 0 where
  pub code : Text
  pub title : Text
  pub acceptance_criteria : Option Text

-- The entries of the context that the prompt shows. A number or `None` that is formatted is its text. The
-- titles of the SOP are its `title` and `content`; those of the knowledge, in the order of the four
-- slots, are the code and the title of each document.
pub record Context : Type 0 where
  pub name : Text
  pub role : Text
  pub organization : Text
  pub responsibilities : List Text
  pub sop : Option Titled
  pub knowledge : List Titled
  pub repository : Option RepositoryContext
  pub task : Option TaskContext
  pub project_repository : Text

-- `sep.join(texts)`
unfoldable pub join : Text → List Text → Text
join sep [] = []
join sep (t ∷ []) = t
join sep (t ∷ u ∷ us) = t ++ sep ++ join sep (u ∷ us)

abbrev pub system_message : Text → Message
system_message t = record { role = MessageRole.system; content = t }

abbrev pub user_message : Text → Message
user_message t = record { role = MessageRole.user; content = t }

abbrev pub responsibilities_text : List Text → Text
responsibilities_text [] = codes "Responsibilities: role-defined."
responsibilities_text (r ∷ rs) = codes "Responsibilities: " ++ join (codes "; ") (r ∷ rs)

-- The text around the dash of "SOP - title: content" is a parameter: it is not ASCII.
unfoldable pub sop_messages : Text → Option Titled → List Message
sop_messages dash none = []
sop_messages dash (some sop) =
    system_message (codes "SOP " ++ dash ++ codes " " ++ sop.label ++ codes ": " ++ sop.title) ∷ []

abbrev pub spaced : Titled → Text
spaced d = d.label ++ codes " " ++ d.title

unfoldable pub knowledge_messages : List Titled → List Message
knowledge_messages [] = []
knowledge_messages (d ∷ ds) =
    system_message (
      codes "Relevant organizational knowledge to apply: "
      ++ join (codes "; ") (map spaced (d ∷ ds)))
    ∷ []

abbrev pub layer_text : Titled → Text
layer_text a = a.label ++ codes "(" ++ a.title ++ codes ")"

abbrev pub files_text : Text → Text
files_text files = if is_nonempty files then codes "Relevant files: " ++ files ++ codes "." else []

unfoldable pub repository_messages : Option RepositoryContext → List Message
repository_messages none = []
repository_messages (some r) =
    system_message (
      codes "Repository '"
      ++ r.name
      ++ codes "' ("
      ++ r.primary_language
      ++ codes "). Architecture: "
      ++ join (codes ", ") (map layer_text (take 6 r.architecture))
      ++ codes ". "
      ++ files_text (join (codes "; ") (take 5 r.files)))
    ∷ []

-- `task.get('acceptance_criteria') or 'meet the Definition of Done'`
abbrev pub criteria_text : Option Text → Text
criteria_text none = codes "meet the Definition of Done"
criteria_text (some []) = codes "meet the Definition of Done"
criteria_text (some (c ∷ t)) = c ∷ t

unfoldable pub task_message : Text → Option TaskContext → Message
task_message repository none =
    user_message (codes "Perform your assigned duties for the current project.")
task_message repository (some t) = user_message (
    codes "Task "
    ++ t.code
    ++ codes ": "
    ++ t.title
    ++ codes ". Acceptance criteria: "
    ++ criteria_text t.acceptance_criteria
    ++ codes ". Repository: "
    ++ repository
    ++ codes ". Produce your output and prepare for review.")

unfoldable pub build : Text → Context → List Message → List Message
build dash c previous =
    (system_message (
        codes "You are "
        ++ c.name
        ++ codes ", "
        ++ c.role
        ++ codes " at "
        ++ c.organization
        ++ codes " Follow the SOP and decision rules.")
      ∷ system_message (responsibilities_text c.responsibilities)
      ∷ [])
    ++ sop_messages dash c.sop
    ++ knowledge_messages c.knowledge
    ++ repository_messages c.repository
    ++ task_message c.project_repository c.task ∷ []
    ++ previous
