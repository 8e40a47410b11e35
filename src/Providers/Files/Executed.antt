-- ===== src/Providers/Files/Executed.antt =====
-- A list of file operations: the hashes that it returns are those of the files that it leaves.
use mathlib.Core.Path.{subst}
use vedox.Base.{◌≡◌, ◌≢◌, inl, inr, Option-cases, none, some, List, [], ◌∷◌, arith, bytes_discrete}
use vedox.Base.Lists.{All}
use vedox.Base.Text.{Text}
use vedox.Base.Dict.{Dict, lookup, insert, lookup-insert_self, Unbound, Unbound-insert, All-others}
use vedox.Providers.Types.{FileOp, Result-cases, ok, failed, Host, Files}
use vedox.Providers.Files.{atomic_file_write, run_op, run_ops, execute_file_ops}
use vedox.Providers.Files.Written.{
  IsWrite, Matches, Recorded, Matches-other, Recorded-insert, atomic_file_write-cases,
}

module _ (sha256_hex : Text → Text) where
  run_op_write :
      (host : Host) (op : FileOp) (files : Files) (hashes : Dict Text Text)
      → IsWrite op
      → run_op sha256_hex host op files hashes ≡ (
          let (files', err) = atomic_file_write host op.boundary op.path op.content files in
          elim err [
            | some e ↦ (files', failed e)
            | none ↦ (files', ok (insert bytes_discrete op.path (sha256_hex op.content) hashes))
          ])
  unfolding run_op
  run_op_write host op files hashes (inl e) = ground (arith, e)
  run_op_write host op files hashes (inr e) = ground (arith, e)

  run_op-Recorded :
      (host : Host) (op : FileOp) (files files' : Files) (hashes hashes' : Dict Text Text)
      → IsWrite op
      → run_op sha256_hex host op files hashes ≡ (files', ok hashes')
      → Recorded sha256_hex files hashes
      → Recorded sha256_hex files' hashes'
  run_op-Recorded host op files files' hashes hashes' w h r =
      let step = run_op_write host op files hashes w in
      elim (atomic_file_write-cases host op.boundary op.path op.content files) [
        | inr (e, p, q) ↦ absurd (ground (arith, h, step, p))
        | inl (p, q) ↦
            let new = Recorded-insert sha256_hex op.path op.content files hashes r in
            let f : insert bytes_discrete op.path op.content files ≡ files' =
              ground (arith, h, step, p, q) in
            let g : insert bytes_discrete op.path (sha256_hex op.content) hashes ≡ hashes' =
              ground (arith, h, step, p, q) in
            subst (λ m. Recorded sha256_hex files' m) g
              (subst
                (λ fs.
                  Recorded sha256_hex fs
                    (insert bytes_discrete op.path (sha256_hex op.content) hashes))
                f new)
      ]

  run_ops-Recorded :
      (host : Host) (ops : List FileOp) (files files' : Files) (hashes hashes' : Dict Text Text)
      → All IsWrite ops
      → run_ops sha256_hex host ops files hashes ≡ (files', ok hashes')
      → Recorded sha256_hex files hashes
      → Recorded sha256_hex files' hashes'
  unfolding run_ops
  run_ops-Recorded host [] files files' hashes hashes' w h r =
      let f : files ≡ files' = ground (arith, h) in
      let g : hashes ≡ hashes' = ground (arith, h) in
      subst (λ m. Recorded sha256_hex files' m) g (subst (λ fs. Recorded sha256_hex fs hashes) f r)
  run_ops-Recorded host (op ∷ ops) files files' hashes hashes' w h r =
      elim (Result-cases (run_op sha256_hex host op files hashes).1) [
        | inl (e, p) ↦ absurd (ground (arith, h, p))
        | inr (m, p) ↦
            let fs = (run_op sha256_hex host op files hashes).0 in
            let first : run_op sha256_hex host op files hashes ≡ (fs, ok m) = ground (arith, p) in
            let rest : run_ops sha256_hex host ops fs m ≡ (files', ok hashes') =
              ground (arith, h, p) in
            run_ops-Recorded host ops fs files' m hashes' w.1 rest
              (run_op-Recorded host op files fs hashes m w.0 first r)
      ]

  -- The hashes that are returned are those of the files that were written.
  pub execute_file_ops-Recorded :
      (host : Host) (ops : List FileOp) (files files' : Files) (hashes : Dict Text Text)
      → All IsWrite ops
      → execute_file_ops sha256_hex host ops files ≡ (files', ok hashes)
      → Recorded sha256_hex files' hashes
  unfolding execute_file_ops
  execute_file_ops-Recorded host ops files files' hashes w h =
      run_ops-Recorded host ops files files' [] hashes w h (tt, tt)

  -- A write to a path without an entry.
  pub All-Matches-insert :
      (path content : Text) (files : Files) (hashes : Dict Text Text)
      → Unbound path hashes
      → All (Matches sha256_hex files) hashes
      → All (Matches sha256_hex (insert bytes_discrete path content files)) hashes
  All-Matches-insert path content files hashes =
      All-others (Matches sha256_hex files)
        (Matches sha256_hex (insert bytes_discrete path content files)) path hashes
        (Matches-other sha256_hex path content files)

  run_op-Unbound :
      (host : Host) (op : FileOp) (files files' : Files) (hashes hashes' : Dict Text Text)
      (k : Text)
      → IsWrite op
      → op.path ≢ k
      → run_op sha256_hex host op files hashes ≡ (files', ok hashes')
      → Unbound k hashes
      → Unbound k hashes'
  run_op-Unbound host op files files' hashes hashes' k w ne h u =
      let step = run_op_write host op files hashes w in
      elim (Option-cases (atomic_file_write host op.boundary op.path op.content files).1) [
        | inr (e, p) ↦ absurd (ground (arith, h, step, p))
        | inl p ↦
            let g : insert bytes_discrete op.path (sha256_hex op.content) hashes ≡ hashes' =
              ground (arith, h, step, p) in
            subst (λ m. Unbound k m) g
              (Unbound-insert bytes_discrete k op.path (sha256_hex op.content) hashes ne u)
      ]

  run_ops-Unbound :
      (host : Host) (ops : List FileOp) (files files' : Files) (hashes hashes' : Dict Text Text)
      (k : Text)
      → All IsWrite ops
      → All (λ op. op.path ≢ k) ops
      → run_ops sha256_hex host ops files hashes ≡ (files', ok hashes')
      → Unbound k hashes
      → Unbound k hashes'
  unfolding run_ops
  run_ops-Unbound host [] files files' hashes hashes' k w ne h u =
      let g : hashes ≡ hashes' = ground (arith, h) in subst (λ m. Unbound k m) g u
  run_ops-Unbound host (op ∷ ops) files files' hashes hashes' k w ne h u =
      elim (Result-cases (run_op sha256_hex host op files hashes).1) [
        | inl (e, p) ↦ absurd (ground (arith, h, p))
        | inr (m, p) ↦
            let fs = (run_op sha256_hex host op files hashes).0 in
            let first : run_op sha256_hex host op files hashes ≡ (fs, ok m) = ground (arith, p) in
            let rest : run_ops sha256_hex host ops fs m ≡ (files', ok hashes') =
              ground (arith, h, p) in
            run_ops-Unbound host ops fs files' m hashes' k w.1 ne.1 rest
              (run_op-Unbound host op files fs hashes m k w.0 ne.0 first u)
      ]

  -- Only the paths of the operations get an entry.
  pub execute_file_ops-Unbound :
      (host : Host) (ops : List FileOp) (files files' : Files) (hashes : Dict Text Text) (k : Text)
      → All IsWrite ops
      → All (λ op. op.path ≢ k) ops
      → execute_file_ops sha256_hex host ops files ≡ (files', ok hashes)
      → Unbound k hashes
  unfolding execute_file_ops
  execute_file_ops-Unbound host ops files files' hashes k w ne h =
      run_ops-Unbound host ops files files' [] hashes k w ne h tt

  -- What a write that succeeds leaves.
  run_op_written :
      (host : Host) (op : FileOp) (files files' : Files) (hashes hashes' : Dict Text Text)
      → IsWrite op
      → run_op sha256_hex host op files hashes ≡ (files', ok hashes')
      → files' ≡ insert bytes_discrete op.path op.content files
  run_op_written host op files files' hashes hashes' w h =
      let step = run_op_write host op files hashes w in
      elim (atomic_file_write-cases host op.boundary op.path op.content files) [
        | inr (e, p, q) ↦ absurd (ground (arith, h, step, p))
        | inl (p, q) ↦ ground (arith, h, step, p, q)
      ]

  -- The last operation's file has its content.
  pub execute_file_ops-last :
      (host : Host) (first last : FileOp) (files files' : Files) (hashes : Dict Text Text)
      → IsWrite last
      → execute_file_ops sha256_hex host (first ∷ last ∷ []) files ≡ (files', ok hashes)
      → lookup bytes_discrete last.path files' ≡ some last.content
  unfolding execute_file_ops run_ops
  execute_file_ops-last host first last files files' hashes w h =
      elim (Result-cases (run_op sha256_hex host first files []).1) [
        | inl (e, p) ↦ absurd (ground (arith, h, p))
        | inr (m, p) ↦
            let fs = (run_op sha256_hex host first files []).0 in
            elim (Result-cases (run_op sha256_hex host last fs m).1) [
              | inl (e, q) ↦ absurd (ground (arith, h, p, q))
              | inr (m', q) ↦
                  let done : run_op sha256_hex host last fs m ≡ (files', ok m') =
                    ground (arith, h, p, q) in
                  rw (run_op_written host last fs files' m m' w done)
                    (lookup-insert_self bytes_discrete last.path last.content fs)
            ]
      ]
