-- ===== src/Providers/Claude/RoundTrip.antt =====
-- Installing for Claude Code and taking it out again, as CLAUDE.md sees it.
use vedox.Base.{
  ◌≡◌, refl, ◌≢◌, inl, inr, Option-cases, Option, List, [], ◌∷◌, arith, bytes_discrete, starts_with,
}
use vedox.Base.Text.{Text, newline}
use vedox.Base.Dict.{Dict, lookup}
use vedox.Base.Search.{cut, not-Among}
use vedox.Providers.Types.{FileOp, ProviderError, Result-cases, ok, Host, Files}
use vedox.Providers.Fence.{with_block}
use vedox.Providers.Fence.Laws.{IsBlock}
use vedox.Providers.Files.{read_file}
use vedox.Providers.Files.Written.{read_file_ok}
use vedox.Providers.Lifecycle.{placeholder}
use vedox.Providers.Lifecycle.Repaired.{IsPlan}
use vedox.Providers.Receipts.{Json, receipt_path}
use vedox.Providers.Claude.{
  fence_start, fence_end, block_lines, claude_block, ParseUrl, agent_file_path, claude_md_path,
  build_agent_file_content, build_claude_md_content, present, write_op, plan, strip, claude,
}

pub claude_block-IsBlock : IsBlock fence_start fence_end claude_block
claude_block-IsBlock = record {
  lines = block_lines;
  parts = unfold claude_block in refl;
  start_in_line = not-Among newline fence_start (unfold fence_start in refl);
  end_in_line = not-Among newline fence_end (unfold fence_end in refl);
  no_end_inside = unfold cut starts_with fence_start fence_end block_lines in refl;
}

module _ (yaml_marshal : Dict Text Text → Option Text) (parse_url : ParseUrl) where
  module _ (home daemon_url body : Text) where
    abbrev agent_file : Text
    agent_file = agent_file_path yaml_marshal parse_url home daemon_url body

    abbrev claude_md : Text
    claude_md = claude_md_path yaml_marshal parse_url home daemon_url body

    abbrev write : Text → Text → FileOp
    write = write_op yaml_marshal parse_url home daemon_url body

    abbrev blocked : Text → Text
    blocked existing = with_block fence_start fence_end claude_block existing

    -- The operations of a plan.
    planned :
        (host : Host) (files : Files) (ops : List FileOp)
        → plan yaml_marshal parse_url home daemon_url body host files ≡ ok ops
        → (agent : Text) × (ops
            ≡ write agent_file agent
              ∷ write claude_md (
                  blocked (
                    present yaml_marshal parse_url home daemon_url body
                      (lookup bytes_discrete claude_md files)))
              ∷ [])
    unfolding plan build_claude_md_content
    planned host files ops h =
        let claude_md_now = lookup bytes_discrete claude_md files in
        elim (Option-cases
          (build_agent_file_content yaml_marshal parse_url home daemon_url body placeholder)) [
            | inl e ↦ absurd (ground (arith, h, e))
            | inr (agent, e) ↦ elim (Result-cases (read_file host files claude_md)) [
              | inl (err, f) ↦ absurd (ground (arith, h, e, f))
              | inr (old, f) ↦
                  let same : claude_md_now ≡ old = read_file_ok host files claude_md old f in
                  (agent, ground (arith, h, e, f, same))
            ]
          ]

    abbrev strip_now : Host → Files → Files × Option ProviderError
    strip_now = strip yaml_marshal parse_url home daemon_url body

    -- A plan writes two files, neither of them the receipt.
    pub plan-IsPlan :
        (json : Json) (vedox_dir : Text) (host : Host) (files : Files) (ops : List FileOp)
        → let adapter = claude yaml_marshal parse_url home daemon_url body in
          agent_file ≢ receipt_path json vedox_dir adapter.provider
          → claude_md ≢ receipt_path json vedox_dir adapter.provider
          → plan yaml_marshal parse_url home daemon_url body host files ≡ ok ops
          → IsPlan adapter json vedox_dir ops
    plan-IsPlan json vedox_dir host files ops a b h =
        let (agent, ops_are) = planned host files ops h in
        rw ops_are ((inr refl, (inr refl, tt)), (a, (b, tt)))
