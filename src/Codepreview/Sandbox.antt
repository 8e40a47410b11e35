-- ===== src/Codepreview/Sandbox.antt =====
-- What a preview shows: lines of a file below the root that is not secret.
use vedox.Base.{ℕ, ◌≡◌, true, false, none, some, [], ◌∷◌, length, take, ltb}
use vedox.Base.Text.{Text}
use vedox.Base.Paths.{slash, clean, join, trim_prefix}
use vedox.Codepreview.Anchor.{LineRange, ok, parse_anchor}
use vedox.Codepreview.Files.{found, validate_path, is_under_root, is_secret_file, has_null}
use vedox.Codepreview.{Url, FileSystem, Preview, max_file_bytes, binary_sniff_bytes, real_root}
use vedox.Codepreview.Lines.{ShowsLines}

module _ (to_lower : ℕ → ℕ) where
  module _ (files : FileSystem) where
    -- The preview is of a file below the root, behind all symbolic links, that is neither secret
    -- nor binary.
    pub record IsSandboxed (project_root : Text) (url : Url) (p : Preview) : Type 0 where
      pub root : Text
      pub real : Text
      pub content : Text
      pub range : LineRange
      pub asked : parse_anchor url.fragment ≡ ok range
      pub of_root : files.abs project_root ≡ some root
      pub no_dots : validate_path (trim_prefix url.path (slash ∷ [])) ≡ none
      pub resolved :
          files.eval_symlinks
            (clean (join (real_root to_lower files root) (trim_prefix url.path (slash ∷ []))))
          ≡ found real
      pub inside : is_under_root real (real_root to_lower files root) ≡ true
      pub not_secret : is_secret_file to_lower real ≡ false
      pub is_read : files.open_file real ≡ found content
      pub not_binary : has_null (take binary_sniff_bytes (take max_file_bytes content)) ≡ false
      pub lines :
          ShowsLines to_lower
            (trim_prefix url.path (slash ∷ []))
            (take max_file_bytes content)
            (ltb max_file_bytes (length content))
            range
            p
