-- ===== src/Codepreview/Files.antt =====
-- codepreview/resolver.go: the checks of paths, the lines of a file and the table of languages.
use vedox.Base.{
  ℕ, Bool, false, ◌&&◌, ◌||◌, if◌then◌else◌, Option, none, some, List, [], ◌∷◌, ◌++◌, bytes,
  bytes_eq, ◌==◌, starts_with, map,
}
use vedox.Base.Text.{Text, newline, split_at_each}
use vedox.Base.Paths.{slash, base, match_glob}
use vedox.Codepreview.Anchor.{PreviewError, absolute_path, traversal}

-- The result of a system call: a value, ErrNotExist or another error.
pub data Found (A : Type 0) : Type 0 where
  found : A → Found A
  missing broken : Found A

unfoldable pub has_dots : List Text → Bool
has_dots [] = false
has_dots (s ∷ segments) = bytes_eq s (bytes "..") || has_dots segments

-- `validatePath`
unfoldable pub validate_path : Text → Option PreviewError
unfolding has_dots
validate_path rel_path =
    if starts_with rel_path (slash ∷ [])
    then some absolute_path
    else if has_dots (split_at_each slash rel_path)
    then some traversal
    else none

-- `isUnderRoot`
unfoldable pub is_under_root : Text → Text → Bool
is_under_root target root = starts_with target (root ++ slash ∷ []) || bytes_eq target root

abbrev secret_file_patterns : List Text
secret_file_patterns =
    bytes "*.env"
    ∷ bytes ".env"
    ∷ bytes "*.pem"
    ∷ bytes "*.key"
    ∷ bytes "*.p12"
    ∷ bytes "*.pfx"
    ∷ bytes "*.pkcs12"
    ∷ bytes "id_rsa"
    ∷ bytes "id_rsa.pub"
    ∷ bytes "id_ed25519"
    ∷ bytes "id_ecdsa"
    ∷ bytes "id_dsa"
    ∷ bytes "*.openssh"
    ∷ bytes "credentials"
    ∷ bytes "credentials.json"
    ∷ bytes "service-account*.json"
    ∷ bytes "serviceaccount*.json"
    ∷ bytes "*secret*.json"
    ∷ bytes "*token*.json"
    ∷ bytes "*.password"
    ∷ bytes "*.secret"
    ∷ bytes "*_secrets.yaml"
    ∷ bytes "*_secrets.yml"
    ∷ bytes "*.kdbx"
    ∷ bytes "*.keystore"
    ∷ []

unfoldable pub matches_one : List Text → Text → Bool
unfolding match_glob
matches_one [] name = false
matches_one (p ∷ patterns) name = match_glob p name || matches_one patterns name

-- `isSecretFile`; `to_lower` is `unicode.ToLower`.
unfoldable pub is_secret_file : (ℕ → ℕ) → Text → Bool
unfolding matches_one base
is_secret_file to_lower path = matches_one secret_file_patterns (map to_lower (base path))

-- `bytes.IndexByte(b, 0) >= 0`
unfoldable pub has_null : Text → Bool
has_null [] = false
has_null (c ∷ s) = (c == 0) || has_null s

unfoldable pub ends_in_newline : Text → Bool
ends_in_newline [] = false
ends_in_newline (c ∷ []) = c == newline
ends_in_newline (c ∷ d ∷ s) = ends_in_newline (d ∷ s)

-- The text without its last character.
unfoldable pub without_last : Text → Text
without_last [] = []
without_last (c ∷ []) = []
without_last (c ∷ d ∷ s) = c ∷ without_last (d ∷ s)

-- `bytes.ReplaceAll` of CRLF by LF.
unfoldable pub unify_breaks : Text → Text
unify_breaks [] = []
unify_breaks (c ∷ []) = c ∷ []
unify_breaks (c ∷ d ∷ s) =
    let rest = unify_breaks (d ∷ s) in if (c == 13) && (d == newline) then rest else c ∷ rest

-- `splitLines`
unfoldable pub split_lines : Text → List Text
unfolding ends_in_newline without_last unify_breaks
split_lines raw =
    split_at_each newline (unify_breaks (if ends_in_newline raw then without_last raw else raw))

abbrev languages : List (Text × Text)
languages =
    (bytes ".go", bytes "go")
    ∷ (bytes ".ts", bytes "typescript")
    ∷ (bytes ".tsx", bytes "typescript")
    ∷ (bytes ".js", bytes "javascript")
    ∷ (bytes ".jsx", bytes "javascript")
    ∷ (bytes ".mjs", bytes "javascript")
    ∷ (bytes ".cjs", bytes "javascript")
    ∷ (bytes ".py", bytes "python")
    ∷ (bytes ".rs", bytes "rust")
    ∷ (bytes ".tf", bytes "hcl")
    ∷ (bytes ".tfvars", bytes "hcl")
    ∷ (bytes ".hcl", bytes "hcl")
    ∷ (bytes ".yaml", bytes "yaml")
    ∷ (bytes ".yml", bytes "yaml")
    ∷ (bytes ".json", bytes "json")
    ∷ (bytes ".toml", bytes "toml")
    ∷ (bytes ".sh", bytes "bash")
    ∷ (bytes ".bash", bytes "bash")
    ∷ (bytes ".zsh", bytes "bash")
    ∷ (bytes ".dockerfile", bytes "dockerfile")
    ∷ (bytes ".sql", bytes "sql")
    ∷ (bytes ".md", bytes "markdown")
    ∷ (bytes ".mdx", bytes "markdown")
    ∷ (bytes ".html", bytes "html")
    ∷ (bytes ".htm", bytes "html")
    ∷ (bytes ".css", bytes "css")
    ∷ (bytes ".scss", bytes "css")
    ∷ (bytes ".sass", bytes "css")
    ∷ (bytes ".svelte", bytes "svelte")
    ∷ (bytes ".java", bytes "java")
    ∷ (bytes ".c", bytes "c")
    ∷ (bytes ".h", bytes "c")
    ∷ (bytes ".cpp", bytes "cpp")
    ∷ (bytes ".cc", bytes "cpp")
    ∷ (bytes ".cxx", bytes "cpp")
    ∷ (bytes ".hpp", bytes "cpp")
    ∷ (bytes ".rb", bytes "ruby")
    ∷ (bytes ".php", bytes "php")
    ∷ (bytes ".kt", bytes "kotlin")
    ∷ (bytes ".kts", bytes "kotlin")
    ∷ (bytes ".swift", bytes "swift")
    ∷ (bytes ".xml", bytes "xml")
    ∷ (bytes ".proto", bytes "protobuf")
    ∷ (bytes ".lua", bytes "lua")
    ∷ (bytes ".r", bytes "r")
    ∷ []

unfoldable pub language_in : List (Text × Text) → Text → Text
language_in [] e = []
language_in ((known, language) ∷ more) e =
    let rest = language_in more e in if bytes_eq known e then language else rest

-- `languageFromExt`
unfoldable pub language_from_ext : (ℕ → ℕ) → Text → Text
unfolding language_in
language_from_ext to_lower e = language_in languages (map to_lower e)
