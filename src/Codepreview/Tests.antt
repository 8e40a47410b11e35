-- ===== src/Codepreview/Tests.antt =====
-- A file of two lines, and the theorem at it.
use vedox.Base.{
  ℕ, ◌≡◌, refl, true, false, some, [], ◌∷◌, ◌++◌, bytes, bytes_discrete, starts_with, leb,
  if◌then◌else◌, ◌&&◌, ◌+◌, bytes_eq,
}
use vedox.Base.Text.{Text, pieces, join_with}
use vedox.Base.Paths.{
  push_element, push_elements, clean, join, trim_prefix, base, take_name, drop_slashes, ext,
  ext_behind, match_glob,
}
use vedox.Codepreview.Anchor.{
  err, PreviewError, digits_value, positive, cut_range, anchor_of, parse_anchor,
}
use vedox.Codepreview.Files.{
  found, missing, has_dots, validate_path, is_under_root, matches_one, is_secret_file, has_null,
  ends_in_newline, without_last, unify_breaks, split_lines, language_in, language_from_ext,
}
use vedox.Codepreview.{
  Url, FileSystem, Preview, slice_lines, preview_of, apply_anchor, show_bytes, real_root, locate,
  show_file, resolve_path, resolve_url, resolve,
}

-- The computing definitions of the package.
code : Unit {0}
unfolding bytes_discrete starts_with pieces join_with push_element push_elements clean join
    trim_prefix base take_name drop_slashes ext ext_behind match_glob digits_value positive
    cut_range anchor_of parse_anchor has_dots validate_path is_under_root matches_one is_secret_file
    has_null ends_in_newline without_last unify_breaks split_lines language_in language_from_ext
    slice_lines preview_of apply_anchor show_bytes real_root locate show_file resolve_path
    resolve_url resolve
code = tt

abbrev lower : ℕ → ℕ
lower c = if leb 65 c && leb c 90 then c + 32 else c

abbrev text : Text
text = bytes "one" ++ 10 ∷ bytes "two" ++ 10 ∷ []

-- One file, and a link that leads out of the root.
abbrev files : FileSystem
files = record {
  abs = λ p. some p;
  eval_symlinks =
      λ p. if bytes_eq p (bytes "/w/link") then found (bytes "/etc/passwd") else found p;
  open_file = λ p. if bytes_eq p (bytes "/w/a.go") then found text else missing;
  reads = λ p. true;
}

abbrev link : Text → Text → Url
link path fragment = record {
  scheme = bytes "vedox";
  host = bytes "file";
  path = path;
  fragment = fragment;
}

abbrev second_line : Preview
second_line = record {
  file_path = bytes "a.go";
  language = bytes "go";
  content = bytes "two";
  start_line = 2;
  end_line = 2;
  total_lines = 2;
  truncated = false;
}

escapes :
    resolve lower files (bytes "/w") (some (link (bytes "/link") []))
    ≡ err PreviewError.symlink_escape
unfolding code
escapes = refl

secret :
    resolve lower files (bytes "/w") (some (link (bytes "/My.PEM") []))
    ≡ err PreviewError.secret_file
unfolding code
secret = refl

too_far :
    resolve lower files (bytes "/w") (some (link (bytes "/a.go") (bytes "L2-L3")))
    ≡ err PreviewError.anchor_out_of_range
unfolding code
too_far = refl

dotted :
    resolve lower files (bytes "/w") (some (link (bytes "/x/../a.go") []))
    ≡ err PreviewError.traversal
unfolding code
dotted = refl
