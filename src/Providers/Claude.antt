-- ===== src/Providers/Claude.antt =====
-- providers/claude.go: the installer for Claude Code, as an `Adapter` of the common life cycle.
pub mod RoundTrip
use vedox.Base.{
  Bool, true, false, if◌then◌else◌, Option, none, some, List, [], ◌∷◌, ◌++◌, bytes, bytes_discrete,
  is_empty,
}
use vedox.Base.Text.{Text, newline}
use vedox.Base.Dict.{Dict}
use vedox.Base.Paths.{join, ends_with}
use vedox.Base.Search.{replace_all}
use vedox.Providers.Types.{
  update, FileOp, ProviderError, encode_failed, Result, ok, failed, Host, Files,
}
use vedox.Providers.Files.{atomic_file_write, read_file, remove_file}
use vedox.Providers.Fence.{with_block, without_block}
use vedox.Providers.Lifecycle.{Adapter, placeholder}

unfoldable pub fence_start : Text
fence_start = bytes "<!-- vedox-agent:start -->"

unfoldable pub fence_end : Text
fence_end = bytes "<!-- vedox-agent:end -->"

abbrev pub agent_file_name : Text
agent_file_name = bytes "vedox-doc.md"

abbrev agent_version : Text
agent_version = bytes "2.0"

-- The lines of the block between its fences.
unfoldable pub block_lines : Text
block_lines =
    newline
    ∷ (bytes "<!-- This block is managed by Vedox. Do not edit manually. -->"
        ++ newline
          ∷ (bytes "<!-- Use 'vedox agent uninstall --provider claude' to remove it. -->"
              ++ newline
                ∷ (newline
                    ∷ (bytes "The Vedox Doc Agent (@vedox-doc-agent) is installed."
                        ++ newline
                          ∷ (bytes
                                "Trigger: type any phrase starting with 'vedox document' to activate it."
                              ++ newline ∷ [])))))

unfoldable pub claude_block : Text
unfolding fence_start fence_end block_lines
claude_block = fence_start ++ (block_lines ++ newline ∷ (fence_end ++ newline ∷ []))

-- The frontmatter of the agent file.
abbrev pub frontmatter : Dict Text Text
frontmatter =
    (bytes "name", bytes "vedox-doc-agent")
    ∷ (
      bytes "description",
      bytes
          "Routes and commits documentation via the Vedox daemon. Activates on 'vedox document' phrases. Authenticated via HMAC-SHA256.",
    )
    ∷ (bytes "version", agent_version)
    ∷ (bytes "provider", bytes "claude")
    ∷ []

-- `url.Parse`: the host and the port.
abbrev pub ParseUrl : Type 0
ParseUrl = Text → Option (Text × Text)

-- `daemonPort`
unfoldable pub daemon_port : ParseUrl → Text → Text
daemon_port parse_url url = elim (parse_url url) [
  | none ↦ bytes "5150"
  | some (host, port) ↦
      if is_empty host then bytes "5150" else if is_empty port then bytes "5150" else port
]

-- The hash of the agent file among those of a receipt.
unfoldable pub agent_hash : Dict Text Text → Text
agent_hash [] = []
agent_hash ((path, hash) ∷ hashes) =
    let rest = agent_hash hashes in if ends_with path agent_file_name then hash else rest

-- `yaml_marshal` is `yaml.Marshal`; `body` is the template of the instructions.
module _ (yaml_marshal : Dict Text Text → Option Text) (parse_url : ParseUrl) where
  module _ (home daemon_url body : Text) where
    abbrev pub claude_dir : Text
    claude_dir = join home (bytes ".claude")

    unfoldable pub agent_file_path : Text
    agent_file_path = join (join claude_dir (bytes "agents")) agent_file_name

    unfoldable pub claude_md_path : Text
    claude_md_path = join claude_dir (bytes "CLAUDE.md")

    -- `buildAgentFileContent`
    unfoldable pub build_agent_file_content : Text → Option Text
    unfolding daemon_port
    build_agent_file_content key_id = elim (yaml_marshal frontmatter) [
      | none ↦ none
      | some yaml ↦
          let port = daemon_port parse_url daemon_url in
          let with_port = replace_all (bytes "{{DAEMON_PORT}}") port body in
          let rule = bytes "---" ++ newline ∷ [] in
          some (rule ++ (yaml ++ (rule ++ replace_all placeholder key_id with_port)))
    ]

    abbrev pub present : Option Text → Text
    present none = []
    present (some text) = text

    -- `buildClaudeMDContent`
    unfoldable pub build_claude_md_content : Host → Files → Result Text
    unfolding read_file
    build_claude_md_content host files = elim (read_file host files claude_md_path) [
      | failed e ↦ failed e
      | ok existing ↦ ok (with_block fence_start fence_end claude_block (present existing))
    ]

    abbrev pub write_op : Text → Text → FileOp
    write_op path content = record {
      path = path;
      action = update;
      content = content;
      boundary = home;
    }

    -- `Plan`: its operations.
    unfoldable pub plan : Host → Files → Result (List FileOp)
    unfolding agent_file_path claude_md_path build_agent_file_content build_claude_md_content
    plan host files = elim (build_agent_file_content placeholder) [
      | none ↦ failed encode_failed
      | some agent ↦ elim (build_claude_md_content host files) [
        | failed e ↦ failed e
        | ok claude_md ↦
            ok (write_op agent_file_path agent ∷ write_op claude_md_path claude_md ∷ [])
      ]
    ]

    -- `stripVedoxBlock`
    unfoldable pub strip_vedox_block : Host → Files → Files × Option ProviderError
    unfolding read_file atomic_file_write claude_md_path
    strip_vedox_block host files = elim (read_file host files claude_md_path) [
      | failed e ↦ (files, some e)
      | ok none ↦ (files, none)
      | ok (some text) ↦ elim (without_block fence_start fence_end text) [
        | none ↦ (files, none)
        | some stripped ↦ atomic_file_write host home claude_md_path stripped files
      ]
    ]

    -- `Uninstall` between the key and the receipt.
    unfoldable pub strip : Host → Files → Files × Option ProviderError
    unfolding remove_file strip_vedox_block agent_file_path
    strip host files =
        let (files', err) = remove_file host agent_file_path files in
        elim err [ some e ↦ (files', some e) | none ↦ strip_vedox_block host files' ]

    abbrev pub claude : Adapter
    claude = record {
      provider = bytes "claude";
      key_name = bytes "vedox-doc-agent-claude";
      version = agent_version;
      daemon_url = daemon_url;
      plan = plan;
      schema_hash = agent_hash;
      strip = strip;
    }
