-- ===== src/Applier/Recover/Crashed.antt =====
-- The recovery after an apply that crashed.
use claude_code_telegram_kit.Prelude.{Option, none, some, false, ◌≡◌, ◌⊎◌}
use claude_code_telegram_kit.Prelude.JsMap
use claude_code_telegram_kit.Prelude.JsMap.{JsMap}
use claude_code_telegram_kit.Applier.Journal.{Platform, World}
use claude_code_telegram_kit.Applier.Apply.{Request, request_key}
use claude_code_telegram_kit.Applier.Run.Undone.{IsAsBefore}
use claude_code_telegram_kit.Applier.Outcome.{IsApplied}
use claude_code_telegram_kit.Applier.Recover.{Recovery, Tally, add_rolled_back}

-- the recovery is for the memory and the release of the request, and its prompt is not under review
pub record IsFor (recovery : Recovery) (r : Request) : Type 0 where
  pub release : recovery.release_sha ≡ r.release_sha
  pub directory : recovery.memory_directory ≡ r.memory_directory
  pub sha : recovery.directory_sha256 ≡ r.directory_sha256
  pub idle : recovery.is_busy r.session_id r.prompt_id ≡ false

-- an apply that is applied, and its journal gone
pub record IsFinished (p : Platform) (r : Request) (w u : World) : Type 0 where
  pub applied : IsApplied p r w u
  pub journal : JsMap.get u.journals (request_key p r) ≡ none

-- The world and the counts of a round that was through without a conflict: all of the apply is undone,
-- or all of it is done.
pub record IsRecovered (p : Platform) (r : Request) (w : World) (t : Tally)
    (out : World × Option Tally) : Type 0 where
  pub world : IsAsBefore p (request_key p r) w out.0 ⊎ IsFinished p r w out.0
  pub counts : (out.1 ≡ some t) ⊎ (out.1 ≡ some (add_rolled_back t))
