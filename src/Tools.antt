-- ===== src/Tools.antt =====
-- The LangChain tools of backend/tools, which the code defines and gives to no agent: what a call of
-- a client answers, and the `except` clause that the tools share.
pub mod GithubTools
pub mod JiraTool
use aerp.Prelude.{ℕ, String, ◌<>◌, decimal, Failure, Result, ok, err}

-- A call of a client answers, raises the client's own exception, which has a status and a text, or
-- raises another one.
pub data Reply (A : Type 0) : Type 0 where
  replied : A → Reply A
  refused : ℕ → String → Reply A
  raised : Failure → Reply A

abbrev pub and_then : {A B : Type 0} → Reply A → (A → Reply B) → Reply B
and_then (replied a) k = k a
and_then (refused status data_text) k = refused status data_text
and_then (raised e) k = raised e

-- `except GithubException as e: return f"…: {e.status} - {e.data}"`: any other exception leaves the
-- tool.
unfoldable pub caught : String → Reply String → Result String
caught message (replied text) = ok text
caught message (refused status data_text) =
    ok (message <> ": " <> decimal status <> " - " <> data_text)
caught message (raised e) = err e
