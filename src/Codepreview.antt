-- ===== src/Codepreview.antt =====
-- The preview of source files: apps/cli/internal/codepreview/resolver.go.
pub mod Anchor
pub mod Files
pub mod Lines
pub mod Sandbox
mod Tests
use vedox.Base.{
  ℕ, zero, suc, ◌+◌, ◌-◌, Bool, true, false, ◌&&◌, not, if◌then◌else◌, Option, none, some, List, [],
  ◌∷◌, ◌++◌, bytes, bytes_eq, is_empty, ltb, ◌==◌, length, take, drop, starts_with,
}
use vedox.Base.Text.{Text, newline, join_with}
use vedox.Base.Paths.{slash, clean, join, trim_prefix, ext}
use vedox.Codepreview.Anchor.{
  PreviewError, LineRange, Result, ok, err, invalid_url, invalid_scheme, invalid_host, empty_path,
  traversal, symlink_escape, secret_file, binary_file, file_not_found, anchor_range_too_big,
  anchor_out_of_range, io_failed, parse_anchor,
}
use vedox.Codepreview.Files.{
  Found, found, missing, broken, validate_path, is_under_root, is_secret_file, split_lines,
  has_null, ends_in_newline, language_from_ext,
}

abbrev pub max_file_bytes : ℕ
max_file_bytes = 512000

abbrev pub binary_sniff_bytes : ℕ
binary_sniff_bytes = 512

abbrev pub max_line_range : ℕ
max_line_range = 500

-- What `url.Parse` returns.
pub record Url : Type 0 where
  pub scheme : Text
  pub host : Text
  pub path : Text
  pub fragment : Text

-- The answers of the operating system: `filepath.Abs`, `filepath.EvalSymlinks`, and `os.Open` with
-- the bytes that the reads return.
pub record FileSystem : Type 0 where
  pub abs : Text → Option Text
  pub eval_symlinks : Text → Found Text
  pub open_file : Text → Found Text
  pub reads : Text → Bool

pub record Preview : Type 0 where
  pub file_path : Text
  pub language : Text
  pub content : Text
  pub start_line : ℕ
  pub end_line : ℕ
  pub total_lines : ℕ
  pub truncated : Bool

-- Step 9 and the result: the lines of the anchor, or all.
unfoldable pub slice_lines : ℕ → ℕ → List Text → List Text
slice_lines start stop lines = take (stop + 1 - start) (drop (start - 1) lines)

-- `to_lower` is `unicode.ToLower`.
module _ (to_lower : ℕ → ℕ) where
  unfoldable pub preview_of : Text → Text → Bool → ℕ → ℕ → Preview
  unfolding slice_lines
  preview_of rel_path raw truncated start stop =
      let lines = split_lines raw in
      let content = join_with newline (slice_lines start stop lines) in
      let whole = not truncated && (start == 1) && (stop == length lines) && ends_in_newline raw in
      record {
        file_path = rel_path;
        language = language_from_ext to_lower (ext rel_path);
        content = if whole then content ++ newline ∷ [] else content;
        start_line = start;
        end_line = stop;
        total_lines = length lines;
        truncated = truncated;
      }

  unfoldable pub apply_anchor : Text → Text → Bool → LineRange → Result Preview
  apply_anchor rel_path raw truncated a =
      let total = length (split_lines raw) in
      if a.start == 0
      then ok (preview_of rel_path raw truncated 1 total)
      else if ltb max_line_range (a.stop + 1 - a.start)
      then err anchor_range_too_big
      else if ltb total a.start
      then err anchor_out_of_range
      else if ltb total a.stop
      then err anchor_out_of_range
      else ok (preview_of rel_path raw truncated a.start a.stop)

  -- Steps 6 to 9 on the bytes of the file.
  unfoldable pub show_bytes : Text → Text → LineRange → Result Preview
  show_bytes rel_path content a =
      let raw = take max_file_bytes content in
      if has_null (take binary_sniff_bytes raw)
      then err binary_file
      else apply_anchor rel_path raw (ltb max_file_bytes (length content)) a

module _ (to_lower : ℕ → ℕ) (files : FileSystem) where
  -- Step 4: the root without symbolic links, where that succeeds.
  unfoldable pub real_root : Text → Text
  real_root root = elim (files.eval_symlinks root) [
    | found r ↦ clean r
    | missing ↦ clean root
    | broken ↦ clean root
  ]

  -- Steps 4 and 5: the file behind a path that was validated.
  unfoldable pub locate : Text → Text → Result Text
  unfolding real_root
  locate root rel_path =
      let target = clean (join (real_root root) rel_path) in
      if is_under_root target (real_root root)
      then (elim (files.eval_symlinks target) [
        | missing ↦ err file_not_found
        | broken ↦ err io_failed
        | found real ↦
            if is_under_root real (real_root root)
            then (if is_secret_file to_lower real then err secret_file else ok real)
            else err symlink_escape
      ])
      else err traversal

  -- Step 6: an error of a read is reported.
  unfoldable pub show_file : Text → Text → LineRange → Result Preview
  show_file real rel_path a = elim (files.open_file real) [
    | missing ↦ err file_not_found
    | broken ↦ err io_failed
    | found content ↦
        if files.reads real then show_bytes to_lower rel_path content a else err io_failed
  ]

  -- `Resolve` behind step 3.
  unfoldable pub resolve_path : Text → Text → LineRange → Result Preview
  resolve_path project_root rel_path a = elim (files.abs project_root) [
    | none ↦ err io_failed
    | some root ↦ elim (locate root rel_path) [
      | err e ↦ err e
      | ok real ↦ show_file real rel_path a
    ]
  ]

  -- `Resolve` behind `url.Parse`.
  unfoldable pub resolve_url : Text → Url → Result Preview
  unfolding resolve_path
  resolve_url project_root url =
      let rel_path = trim_prefix url.path (slash ∷ []) in
      if bytes_eq url.scheme (bytes "vedox")
      then (if bytes_eq url.host (bytes "file")
          then (if is_empty rel_path then err empty_path else elim (parse_anchor url.fragment) [
            | err e ↦ err e
            | ok a ↦ elim (validate_path rel_path) [
              | some e ↦ err e
              | none ↦ resolve_path project_root rel_path a
            ]
          ])
          else err invalid_host)
      else err invalid_scheme

  -- `Resolve`
  unfoldable pub resolve : Text → Option Url → Result Preview
  unfolding resolve_url
  resolve project_root none = err invalid_url
  resolve project_root (some url) = resolve_url project_root url
