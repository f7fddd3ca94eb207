-- ===== src/Rollup.antt =====
-- The rollup queue: src/rollup/mod.rs, and in Engine the functions of src/rollup/engine.rs that decide
-- without a call. Times and GitHub's numbers are natural numbers.
pub mod Engine
pub mod Ingress
mod Commands
mod Verdicts
mod Groups
mod Tests
use xero_bot.Text.{Text, text_eq}
use xero_bot.Prelude.{Bool, Option, ℕ, List, [], ◌∷◌}
use xero_bot.Store.Table.{find_where}

-- `reviewers` is a map, by its pairs
pub record Policy : Type 0 where
  pub enabled : Bool
  pub public : Bool
  pub max_batch : ℕ
  pub collect_seconds : ℕ
  pub timeout_seconds : ℕ
  pub required_checks : List Text
  pub forgejo_required_checks : List Text
  pub fallback_after_seconds : ℕ
  pub reviewers : List (Text × Text)

pub record Origin : Type 0 where
  pub provider : Text
  pub repo : Text
  pub number : ℕ
  pub login : Text

pub record Entry : Type 0 where
  pub key : Text
  pub number : ℕ
  pub head : Text
  pub title : Text
  pub approved_by : Text
  pub origin : Origin
  pub rollup : Bool
  pub try_only : Bool
  pub created : ℕ
  pub decision_time : ℕ
  pub decision_comment : ℕ
  pub decision_provider : Text
  pub state : Text
  pub detail : Text
  pub batch : Option ℕ

pub record Batch : Type 0 where
  pub id : ℕ
  pub members : List Text
  pub heads : List Text
  pub approvals : List Entry
  pub base : Text
  pub base_branch : Text
  pub branch : Text
  pub tip : Text
  pub state : Text
  pub created : ℕ
  pub finished : Option ℕ
  pub detail : Text
  pub try_only : Bool
  pub audit_pr : Option ℕ
  pub audit_attempted : Bool
  pub cleaned : Bool
  pub forgejo_recorded : Bool
  pub github_ci : Text
  pub forgejo_ci : Text
  pub fallback_started : Option ℕ
  pub passed_on : Option Text

pub record Repository : Type 0 where
  pub name : Text
  pub id : ℕ
  pub installation : ℕ
  pub entries : List Entry
  pub batches : List Batch
  pub active : Option ℕ
  pub split : List (List Text)
  pub sequence : ℕ
  pub commands : List Text
  pub public : Bool
  pub checked : ℕ
  pub next_attempt : ℕ
  pub failures : ℕ
  pub detail : Text

-- `Repository::entry`
unfoldable pub entry : Repository → Text → Option Entry
unfolding find_where
entry repo key = find_where (λ e. text_eq e.key key) repo.entries
