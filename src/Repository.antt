-- ===== src/Repository.antt =====
-- backend/graph/nodes.py: the repository analyzer. The files that a pull request changes are
-- classified by their paths alone.
use aerp.Prelude.{
  ℕ, String, codes, lower, has, has_code, same, ends, after_last, join, any_of, Bool, not, Option,
  none, some, List, [], ◌∷◌, contains, if◌then◌else◌,
}
use aerp.State.{FileAnalysis, ImpactGraph}
use aerp.Dict.{Dict, insert, keys_where, any_value}

abbrev file_types : List (String × String)
file_types =
    ("py", "python")
    ∷ ("ts", "typescript")
    ∷ ("tsx", "typescript")
    ∷ ("js", "javascript")
    ∷ ("jsx", "javascript")
    ∷ ("java", "java")
    ∷ ("cs", "csharp")
    ∷ ("go", "go")
    ∷ ("sql", "sql")
    ∷ ("json", "config")
    ∷ ("yaml", "config")
    ∷ ("yml", "config")
    ∷ ("env", "config")
    ∷ ("md", "docs")
    ∷ ("txt", "docs")
    ∷ ("html", "template")
    ∷ ("css", "style")
    ∷ []

lookup_type : List ℕ → List (String × String) → String
lookup_type ext [] = "unknown"
lookup_type ext ((k, v) ∷ types) =
    let rest = lookup_type ext types in if same ext (codes k) then v else rest

unfoldable pub classify_file_type : String → String
unfolding lookup_type
classify_file_type filepath =
    let path = codes filepath in
    let ext : List ℕ = if has_code b'.' path then lower (after_last b'.' path path) else [] in
    lookup_type ext file_types

-- `any(x in path for x in words)`
abbrev mentions : List ℕ → List String → Bool
mentions path = any_of (λ x. has path (codes x))

unfoldable pub detect_layer : String → Option String
detect_layer filepath =
    let path = lower (codes filepath) in
    if mentions path ("/routes/" ∷ "/controllers/" ∷ "/api/" ∷ [])
    then some "presentation"
    else if mentions path ("/services/" ∷ "/use_cases/" ∷ "/domain/" ∷ [])
    then some "business_logic"
    else if mentions path ("/models/" ∷ "/schemas/" ∷ "/entities/" ∷ [])
    then some "domain_model"
    else if mentions path ("/repositories/" ∷ "/db/" ∷ "/database/" ∷ "/migrations/" ∷ [])
    then some "data_access"
    else if mentions path ("/utils/" ∷ "/helpers/" ∷ "/common/" ∷ [])
    then some "utility"
    else none

unfoldable pub is_test_file : String → Bool
is_test_file filepath = mentions (lower (codes filepath)) ("test" ∷ "spec" ∷ [])

unfoldable pub is_migration : String → Bool
is_migration filepath = mentions (lower (codes filepath)) ("migration" ∷ "migrate" ∷ [])

unfoldable pub is_config_file : String → Bool
is_config_file filepath =
    any_of (λ x. ends (codes filepath) (codes x))
      (".yml" ∷ ".yaml" ∷ ".json" ∷ ".env" ∷ ".toml" ∷ ".cfg" ∷ [])

unfoldable pub detect_framework : List String → String
detect_framework changed_files =
    let all_paths = lower (codes (join " " changed_files)) in
    if mentions all_paths ("fastapi" ∷ "uvicorn" ∷ [])
    then "fastapi"
    else if mentions all_paths ("django" ∷ "settings.py" ∷ [])
    then "django"
    else if mentions all_paths ("spring" ∷ ".java" ∷ [])
    then "spring_boot"
    else if mentions all_paths ("aspnet" ∷ ".cs" ∷ [])
    then "aspnet_core"
    else if any_of (λ f. ends (codes f) (codes ".py")) changed_files
    then "python"
    else "unknown"

unfoldable pub analyze_file : String → FileAnalysis
analyze_file filepath = record {
  file_type = classify_file_type filepath;
  layer = detect_layer filepath;
  is_test = is_test_file filepath;
  is_migration = is_migration filepath;
  is_config = is_config_file filepath;
}

-- The loop `files_analysis[filepath] = …`.
unfoldable pub analyze_into : Dict FileAnalysis → List String → Dict FileAnalysis
analyze_into d [] = d
analyze_into d (filepath ∷ rest) = analyze_into (insert filepath (analyze_file filepath) d) rest

unfoldable pub files_analysis : List String → Dict FileAnalysis
unfolding analyze_into
files_analysis = analyze_into []

-- The set of the layers, as a list. Python leaves the order of a set open; here each layer stands
-- where it is met last.
unfoldable pub changed_layers : Dict FileAnalysis → List String
changed_layers [] = []
changed_layers ((k, f) ∷ d) =
    let rest = changed_layers d in
    elim f.layer [ none ↦ rest | some layer ↦ if contains rest layer then rest else layer ∷ rest ]

unfoldable pub impact_graph : List String → ImpactGraph
unfolding files_analysis changed_layers
impact_graph changed_files =
    let d = files_analysis changed_files in
    record {
      changed_layers = changed_layers d;
      has_migrations = any_value (λ f. f.is_migration) d;
      has_config_changes = any_value (λ f. f.is_config) d;
      test_files_changed = keys_where (λ f. f.is_test) d;
      non_test_files = keys_where (λ f. not f.is_test) d;
      framework = detect_framework changed_files;
    }
