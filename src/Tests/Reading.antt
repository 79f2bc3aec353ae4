-- ===== src/Tests/Reading.antt =====
-- The lists of findings and reviews, the search and the connected accounts at concrete data.
use aerp.Database.{ReviewLog}
use aerp.Reviews.Cancel.{cancel_review, cancel_log}
use aerp.Reviews.Logs.{get_review_logs, to_log_item, is_log_of, all_logs, is_older}
use aerp.Reviews.Logged.{cancel_review-logged}
use aerp.Tests.Data.{quiet_feed}
use aerp.Prelude.{
  ℕ, ◌+◌, ◌-◌, ◌≡◌, refl, String, ◌<>◌, true, false, none, some, List, [], ◌∷◌, map, keep,
  IsOrdered, order_by, ok,
}
use mathlib.Core.List.{Perm}
use aerp.Database.{Db, Comment, ThirdPartyIntegration}
use aerp.Rag.Chunker.{url}
use aerp.Rag.Indexer.{VectorStore, EmbeddingRow}
use aerp.Rag.Retriever
use aerp.Rag.Retriever.{Search}
use aerp.Reviews.Listing.{get_review_findings, to_item}
use aerp.Reviews.Post
use aerp.Reviews.Post.{already_posted, successfully_posted, set_posted}
use aerp.Reviews.PostOnce.{post_finding_to_pr-once}
use aerp.Github.Comments.{mock_url, post_single_finding_comment}
use aerp.Integrations.{connect_integration_pat, disconnect_integration}
use aerp.Integrations.Laws.{connect_integration_pat-stored_token}
use aerp.Tasks.Review.{System, stored_token, github_account}
use aerp.Tests.Accounts.{fernet, queued_review}
use aerp.Tests.Storage.{risky, system}

abbrev comment : String → String → ℕ → Comment
comment id severity confidence = record {
  id = id;
  pull_request_id = "r1";
  agent = "security_agent";
  severity = severity;
  confidence = confidence;
  title = "t";
  description = "d";
  evidence = "";
  suggested_fix = none;
  file_path = none;
  line_number = none;
  owasp_category = none;
  is_posted_to_github = false;
  created_at = 1000;
}

abbrev commented : System risky
commented = record system {
  db = record system.db {
    comments = comment "c1" "low" 900 ∷ comment "c2" "high" 700 ∷ comment "c3" "high" 800 ∷ [];
    accounts = [];
  };
}

-- The worst finding first, and of two alike the surer one.
worst-first :
    get_review_findings "r1" "u1" none commented.db
    ≡ ok (record {
      review_id = "r1";
      total = 3;
      findings =
          to_item (comment "c3" "high" 800)
          ∷ to_item (comment "c2" "high" 700)
          ∷ to_item (comment "c1" "low" 900)
          ∷ [];
    })
unfolding get_review_findings order_by
worst-first = refl

-- The finding c1 after it was posted.
abbrev posted_db : System risky
posted_db = record commented {
  db = record commented.db {
    comments =
        set_posted (comment "c1" "low" 900)
        ∷ comment "c2" "high" 700
        ∷ comment "c3" "high" 800
        ∷ [];
  };
}

posts-once :
    Post.post_finding_to_pr risky fernet "token" "r1" "c1" "u1" none commented
    ≡ (ok (successfully_posted mock_url), posted_db)
unfolding Post.post_finding_to_pr post_single_finding_comment
posts-once = refl

post_finding_to_pr-once_example :
    Post.post_finding_to_pr risky fernet "token" "r1" "c1" "u1" (some "again") posted_db
    ≡ (ok already_posted, posted_db)
post_finding_to_pr-once_example =
    post_finding_to_pr-once risky fernet "token" "r1" "c1" "u1" none (some "again") commented
      posted_db mock_url posts-once

-- Vectors on a line.
abbrev line_store : VectorStore
line_store = record {
  Vector = ℕ;
  connect = ok tt;
  embed = λ texts. ok (map (λ (t : String). 0) texts);
  insert = λ row. ok tt;
}

abbrev line_search : Search line_store
line_search = record {
  embed_query = λ query. ok 4;
  distance = λ x y. (x - y) + (y - x);
  similarity = λ distance. "";
}

abbrev row : String → ℕ → EmbeddingRow ℕ
row content at = record {
  pull_request_id = "r1";
  chunk = record {
    content = content;
    source = "jira";
    metadata = record {
      chunk_index = 0;
      total_chunks = 1;
      source = "jira";
      origin = url "https://jira";
    };
  };
  embedding = at;
}

abbrev rows : List (EmbeddingRow ℕ)
rows = row "far" 9 ∷ row "near" 5 ∷ row "nearest" 4 ∷ []

shown-search :
    Retriever.search_context line_search "r1" rows "q" none
    ≡ ok
        "Found 3 relevant chunks for 'q':\n\n\n[1] Source: Jira (similarity: )\nnearest\n\n[2] Source: Jira (similarity: )\nnear\n\n[3] Source: Jira (similarity: )\nfar"
unfolding Retriever.search_context order_by
shown-search = refl

abbrev github : ThirdPartyIntegration
github = record {
  id = "i1";
  name = "github";
  display_name = "GitHub";
  description = none;
  logo_url = none;
  is_enabled = true;
}

connect_integration_pat-stored_token_example :
    (connected disconnected : Db) × (connect_integration_pat fernet "github" "secret" "u1"
        commented.db
      ≡ (ok ("Successfully connected to " <> "GitHub"), connected))
    × (stored_token fernet (github_account connected "u1") ≡ ok (some "secret"))
    × (disconnect_integration "github" "u1" connected
        ≡ (ok ("Successfully disconnected from " <> "GitHub"), disconnected))
    × (stored_token fernet (github_account disconnected "u1") ≡ ok none)
connect_integration_pat-stored_token_example =
    connect_integration_pat-stored_token fernet "secret" "u1" commented.db github refl
      ((λ e. refl), tt) refl

cancel_review-logged_example :
    (logs : List ReviewLog) × (get_review_logs "r1" "u1"
        (cancel_review 1100 "r1" "u1" commented.db).1
        quiet_feed
      ≡ ok (map to_log_item logs))
    × Perm logs (cancel_log 1100 "r1" ∷ keep (is_log_of "r1") (all_logs commented.db quiet_feed))
    × IsOrdered is_older logs
cancel_review-logged_example =
    cancel_review-logged 1100 "r1" "u1" commented.db quiet_feed queued_review refl refl refl
