-- ===== src/Providers/Tests.antt =====
-- An installation for Claude Code in an empty home, and the theorems at it.
use vedox.Base.{
  ℕ, ◌≡◌, refl, ◌∙◌, ◌≢◌, ◌⊎◌, inl, inr, Bool, true, false, not, ◌&&◌, Bool-cases, if◌then◌else◌,
  Option, none, some, List, [], ◌∷◌, ◌++◌, ◌+◌, ◌==◌, ltb, bytes, bytes_discrete, ite, if_pos,
  if_neg, ℕ_discrete, starts_with, arith,
}
use vedox.Base.Lists.{take}
use vedox.Base.Text.{Text, newline, pieces, join_with}
use vedox.Base.Dict.{Dict, lookup, insert, delete}
use vedox.Base.Paths.{push_element, push_elements, clean, join, ends_with}
use vedox.Base.Search.{cut, contains, replace_from, trim_right_of}
use vedox.Base.Tests.{ne_of_bytes_eq, is_yes}
use vedox.AtomicFile.{rename, perform, falter, clean_up, run_steps}
use vedox.Providers.Types.{
  FileOp, InstallReceipt, ProviderError, step_failed, symlink_rejected, escapes_boundary, Result,
  ok, failed, Look, absent, symlink, plain, Host, KeyIssuer, World,
}
use vedox.Providers.Symlinks.{
  elements, path_of, relative, walk_parts, lstat_reject_symlink, assert_no_symlink,
}
use vedox.Providers.Symlinks.Soundness.{IsTree, assert_no_symlink_sound}
use vedox.Providers.Fence.{
  settle, spacing, around_block, replace_fenced_block, remove_fenced_block, with_block,
  without_block,
}
use vedox.Providers.Fence.Laws.{with_block-IsIdempotent}
use vedox.Providers.Files.{
  atomic_file_write, read_file, remove_file, run_op, run_ops, execute_file_ops,
}
use vedox.Providers.Receipts.{Json, IsRoundTrip, receipt_path, save, load, delete_receipt}
use vedox.Providers.Lifecycle.{
  Adapter, substitute_op, verify_entries, verify, receipt_of, install, revoke_of, reinstall,
  repair_in, strip_and_forget, uninstall_in,
}
use vedox.Providers.Lifecycle.Keys.{IsIssuer, install-live, uninstall-IsRevokedFirst}
use vedox.Providers.Lifecycle.Repaired.{IsHealthy, repair-IsHealthy}
use vedox.Providers.Claude.{
  fence_start, fence_end, block_lines, claude_block, daemon_port, agent_hash, agent_file_path,
  claude_md_path, build_agent_file_content, build_claude_md_content, plan, strip_vedox_block, strip,
  claude, ParseUrl,
}
use vedox.Providers.Claude.RoundTrip.{claude_block-IsBlock, plan-IsPlan}

-- A key issuer that counts: the id is the number as a text of one character.
record Counted : Type 0 where
  next : ℕ
  revoked : ℕ → Bool

abbrev revoke_at : Text → Counted → Counted
revoke_at [] s = s
revoke_at (n ∷ []) s = record s { revoked = λ m. if m == n then true else s.revoked m }
revoke_at (n ∷ m ∷ more) s = s

abbrev counter : KeyIssuer
counter = record {
  State = Counted;
  issue = λ name project prefix s. (
    record { next = s.next + 1; revoked = λ n. if n == s.next then false else s.revoked n },
    some (s.next ∷ []),
  );
  revoke = λ id s. (revoke_at id s, true);
}

abbrev in_use : Text → Counted → Bool
in_use [] s = false
in_use (n ∷ []) s = ltb n s.next && not (s.revoked n)
in_use (n ∷ m ∷ more) s = false

counter_keeps :
    (s : Counted) (j : Text) → s.next ∷ [] ≢ j → in_use j (counter.issue [] [] [] s).0 ≡ in_use j s
counter_keeps s [] ne = refl
counter_keeps s (n ∷ m ∷ more) ne = refl
counter_keeps s (n ∷ []) ne = elim (Bool-cases (n == s.next)) [
  | inl e ↦ absurd (ne (ground (arith, e)))
  | inr e ↦ ground (arith, e)
]

counter_revoked : (id : Text) (s : Counted) → in_use id (counter.revoke id s).0 ≡ false
counter_revoked [] s = refl
counter_revoked (n ∷ []) s = ground arith
counter_revoked (n ∷ m ∷ more) s = refl

counter_revoke_keeps :
    (id j : Text) (s : Counted) → id ≢ j → in_use j (counter.revoke id s).0 ≡ in_use j s
counter_revoke_keeps [] j s ne = refl
counter_revoke_keeps (n ∷ m ∷ more) j s ne = refl
counter_revoke_keeps (n ∷ []) [] s ne = refl
counter_revoke_keeps (n ∷ []) (m ∷ k ∷ more) s ne = refl
counter_revoke_keeps (n ∷ []) (m ∷ []) s ne = elim (Bool-cases (m == n)) [
  | inl e ↦ absurd (ne (ground (arith, e)))
  | inr e ↦ ground (arith, e)
]

issued_id :
    (s s' : Counted) (id : Text)
    → counter.issue [] [] [] s ≡ (s', some id)
    → (id ≡ s.next ∷ []) × (s' ≡ (counter.issue [] [] [] s).0)
issued_id s s' id h = (ground (arith, h), ground (arith, h))

counter_laws : IsIssuer counter
counter_laws = record {
  live = in_use;
  was_new = λ name project prefix s s' id h. rw (issued_id s s' id h).0 (ground arith);
  is_live = λ name project prefix s s' id h.
      rw (issued_id s s' id h).0 (rw (issued_id s s' id h).1 (ground arith));
  issue_keeps = λ name project prefix s s' id j h ne.
      rw (issued_id s s' id h).1 (counter_keeps s j (λ e. ne ((issued_id s s' id h).0 ∙ e)));
  failed_keeps = λ name project prefix s j h. absurd (ground (arith, h));
  is_revoked = λ id s h. counter_revoked id s;
  revoke_keeps = counter_revoke_keeps;
}

receipt_discrete : Discrete InstallReceipt
receipt_discrete = hlevel (bytes_discrete, ℕ_discrete)

abbrev calm : Host
calm = record {
  seen = λ path. absent;
  seen_again = λ path. absent;
  fault = λ path. record { at = none; written = 0; cleanup_fails = false };
  unreadable = λ path. false;
  undeletable = λ path. false;
  now = 7;
}

abbrev yaml : Dict Text Text → Option Text
yaml d = some (bytes "yaml" ++ newline ∷ [])

abbrev no_url : ParseUrl
no_url url = none

abbrev home : Text
home = bytes "/h"

abbrev body : Text
body = bytes "key {{HMAC_KEY_ID}}"

abbrev folder : Text
folder = bytes "/h/.vedox"

-- The computing definitions of the package.
code : Unit {0}
unfolding bytes_discrete starts_with lookup insert delete pieces join_with push_element
    push_elements clean join ends_with cut contains replace_from trim_right_of perform falter
    clean_up run_steps elements path_of relative walk_parts lstat_reject_symlink assert_no_symlink
    settle spacing around_block replace_fenced_block remove_fenced_block with_block without_block
    atomic_file_write read_file remove_file run_op run_ops execute_file_ops receipt_path save load
    delete_receipt substitute_op verify_entries verify receipt_of install revoke_of reinstall
    repair_in strip_and_forget uninstall_in fence_start fence_end block_lines claude_block
    daemon_port agent_hash agent_file_path claude_md_path build_agent_file_content
    build_claude_md_content plan strip_vedox_block strip receipt_discrete ℕ_discrete counter_laws
code = tt

abbrev sha : Text → Text
sha t = take 3 t

abbrev fresh : World counter
fresh = record {
  files = (bytes "/h/.claude/CLAUDE.md", bytes "mine" ++ newline ∷ newline ∷ []) ∷ [];
  issued = record { next = 65; revoked = λ n. false };
}

abbrev adapter : Adapter
adapter = claude yaml no_url home [] body

abbrev ops : List FileOp
ops = elim (plan yaml no_url home [] body calm fresh.files) [ ok planned ↦ planned | failed e ↦ [] ]

abbrev installed : World counter × Result InstallReceipt
installed = install sha counter adapter calm ops fresh

abbrev agent_path : Text
agent_path = bytes "/h/.claude/agents/vedox-doc.md"

abbrev md_path : Text
md_path = bytes "/h/.claude/CLAUDE.md"

-- The receipt of the first installation.
abbrev receipt : InstallReceipt
receipt = record {
  provider = bytes "claude";
  version = bytes "2.0";
  schema_hash = bytes "---";
  auth_key_id = bytes "A";
  daemon_url = [];
  file_hashes = (agent_path, bytes "---") ∷ (md_path, bytes "min") ∷ [];
  installed_at = 7;
}

receipt_test : installed.1 ≡ ok receipt
unfolding code
receipt_test = refl

-- The body of the agent file has the key's id in place of the placeholder.
agent_file_test :
    lookup bytes_discrete agent_path installed.0.files
    ≡ some (
        bytes "---"
        ++ newline ∷ (bytes "yaml" ++ newline ∷ (bytes "---" ++ newline ∷ bytes "key A")))
unfolding code
agent_file_test = refl

-- A codec for that receipt; it refuses all others.
abbrev one : Json
one = record {
  marshal = λ r. ite (receipt_discrete r receipt) (some (bytes "r")) none;
  unmarshal = λ t. ite (bytes_discrete t (bytes "r" ++ newline ∷ [])) (some receipt) none;
}

one_read_back :
    (r : InstallReceipt) (t : Text)
    → one.marshal r ≡ some t
    → one.unmarshal (t ++ newline ∷ []) ≡ some r
unfolding bytes_discrete ℕ_discrete
one_read_back r t h = elim (receipt_discrete r receipt) [
  | yes p ↦
      let e : some (bytes "r") ≡ some t = rw (if_pos _ p) at h in
      let same : bytes "r" ≡ t = ground (arith, e) in rw (← same, p) refl
  | no p ↦ let e : ◌≡◌ {A = Option Text} none (some t) = rw (if_neg _ p) at h in cc
]

one_law : IsRoundTrip one
one_law = record { read_back = one_read_back }

agent_apart : agent_file_path yaml no_url home [] body ≢ receipt_path one folder adapter.provider
unfolding code
agent_apart = ne_of_bytes_eq agent_path (bytes "/h/.vedox/install-receipts/claude.json") refl

md_apart : claude_md_path yaml no_url home [] body ≢ receipt_path one folder adapter.provider
unfolding code
md_apart = ne_of_bytes_eq md_path (bytes "/h/.vedox/install-receipts/claude.json") refl

abbrev repaired : World counter × Option ProviderError
repaired = repair_in sha counter adapter one folder calm fresh

repair-IsHealthy_example :
    (r : InstallReceipt) × IsHealthy sha counter adapter one one_law folder calm repaired.0.files r
unfolding code
repair-IsHealthy_example =
    repair-IsHealthy sha counter adapter one one_law folder calm fresh repaired.0
      (λ os h.
        plan-IsPlan yaml no_url home [] body one folder calm fresh.files os agent_apart md_apart h)
      (λ path. refl) refl

-- The rename of CLAUDE.md fails, behind the agent file.
abbrev broken : Host
broken = record calm {
  fault = λ path. record {
    at = if is_yes (bytes_discrete path md_path) then some rename else none;
    written = 0;
    cleanup_fails = true;
  };
}

install-live_example :
    let r = install sha counter adapter broken ops fresh in
    ((e : ProviderError) × (r.1 ≡ failed e)
      × ((in_use (bytes "A") r.0.issued ≡ in_use (bytes "A") fresh.issued)
          ⊎ ((id : Text) × (s : counter.State) × (counter.issue adapter.key_name [] [] fresh.issued
                ≡ (s, some id))
              × ((counter.revoke id s).1 ≡ false)
              × (id ≢ bytes "A"
                  → in_use (bytes "A") r.0.issued ≡ in_use (bytes "A") fresh.issued))))
    ⊎ ((receipt : InstallReceipt) × (r.1 ≡ ok receipt)
        × (in_use receipt.auth_key_id fresh.issued ≡ false)
        × (in_use receipt.auth_key_id r.0.issued ≡ true)
        × (receipt.auth_key_id ≢ bytes "A"
            → in_use (bytes "A") r.0.issued ≡ in_use (bytes "A") fresh.issued))
unfolding code
install-live_example = install-live sha counter counter_laws adapter broken ops fresh (bytes "A")

broken_test : (install sha counter adapter broken ops fresh).1 ≡ failed (step_failed rename)
unfolding code
broken_test = refl

uninstall-IsRevokedFirst_example :
    let r = uninstall_in sha counter adapter one folder broken repaired.0 in
    (in_use (bytes "A") r.0.issued ≡ false)
    ⊎ ((r.0.files ≡ repaired.0.files) × (e : ProviderError) × (r.1 ≡ some e))
unfolding code
uninstall-IsRevokedFirst_example =
    uninstall-IsRevokedFirst sha counter counter_laws adapter one folder broken repaired.0 receipt
      refl refl

with_block-IsIdempotent_example :
    with_block fence_start fence_end claude_block
      (with_block fence_start fence_end claude_block (bytes "mine"))
    ≡ with_block fence_start fence_end claude_block (bytes "mine")
with_block-IsIdempotent_example =
    with_block-IsIdempotent fence_start fence_end claude_block claude_block-IsBlock (bytes "mine")

-- A link two folders below the home.
abbrev linked : Text → Look
linked path =
    if is_yes (bytes_discrete path (bytes "/h/a/b"))
    then symlink
    else if is_yes (bytes_discrete path (bytes "/h"))
    then plain
    else if is_yes (bytes_discrete path (bytes "/h/a"))
    then plain
    else absent

rejected_test :
    assert_no_symlink linked home (bytes "/h/a/b/c") ≡ some (symlink_rejected (bytes "/h/a/b"))
unfolding code
rejected_test = refl

escape_test : assert_no_symlink linked home (bytes "/h/../etc") ≡ some escapes_boundary
unfolding code
escape_test = refl

-- Every name is there, and none is a link.
abbrev bare : Text → Look
bare path = plain

bare-IsTree : IsTree bare
bare-IsTree es e h = cc

assert_no_symlink_sound_example :
    (parts : List Text) × (elements (bytes "/h/a/b") ≡ elements home ++ parts)
    × ((n : ℕ) → bare (path_of (elements home ++ take n parts)) ≢ symlink)
unfolding code
assert_no_symlink_sound_example =
    assert_no_symlink_sound bare bare-IsTree home (bytes "/h/a/b") refl
