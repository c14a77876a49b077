-- ===== src/Openssh/Scanner/Stream.antt =====
-- The loop of the scanner over the lines that the remote script prints.
use mathlib.Core.Path.{subst}
use ssh_forward.Core.Types.{direction_eq, key_eq, state_eq, target_eq}
use ssh_forward.Openssh.Scanner.{
  ScanError, ScanInput, ScanRun, classify, invalid_snapshot, no_reply, probe_line, read_banners,
  read_snapshot, scan_listeners, scan_round, write_failed,
}
use ssh_forward.Openssh.Scanner.Known.{scan_round_lem}
use ssh_forward.Openssh.Scanner.Round.{listed, socket_at}
use ssh_forward.Openssh.Snapshot.{
  CapabilitySnapshot, SnapshotBanner, SnapshotSocket, marshal_port, reachable_sockets, socket_eq,
  unmarshal_port,
}
use ssh_forward.Prelude.{
  ==_refl, All, Bool-cases, List, Map, Option-cases, Str, [], ap, arith, bool_eq, contains, false,
  inl, inr, is_some, length, lookup, nat_eq, none, parse_uint-format_uint, refl, some, str_eq, suc,
  sym, true, ℕ, ◌+◌, ◌-◌, ◌^◌, ◌↔◌, ◌∙◌, ◌∷◌, ◌≡◌, ◌≤◌,
}

-- Every port that is written as JSON is read back.
pub unmarshal_port-marshal_port :
    (port : ℕ) → port ≤ 2 ^ 16 - 1 → unmarshal_port (marshal_port port) ≡ port
unfolding unmarshal_port marshal_port
unmarshal_port-marshal_port port h =
    rw (parse_uint-format_uint 16 (omega arith) (omega arith) (2 ^ 16 - 1) port h) refl

-- The lines that are read as observations: every other line, from the first on.
unfoldable pub observations : List Str → List Str
observations [] = []
observations (line ∷ []) = line ∷ []
observations (line ∷ reply ∷ rest) = line ∷ observations rest

module _ (input : ScanInput) where
  -- Every line is an observation or the reply to one, is accepted, is answered, and reading ends well.
  abbrev pub RunsCleanly : ℕ → List Str → Type 0
  RunsCleanly round [] = input.read_fails ≡ false
  RunsCleanly round (line ∷ []) = ⊥
  RunsCleanly round (line ∷ reply ∷ rest) =
      (is_some (read_snapshot input line) ≡ true)
      × (input.write_fails round ≡ false)
      × (is_some (read_banners input reply) ≡ true)
      × RunsCleanly (suc round) rest

  -- A run without an error is a clean one, and each set that is emitted answers a line that was
  -- written, but for one more at the end.
  abbrev pub Accounts : ScanRun → Type 0 → Type 0
  Accounts run Clean =
      ((run.error ≡ none) ↔ Clean)
      × (length run.emitted ≤ length run.written)
      × (length run.written ≤ length run.emitted + 1)

  fails :
      (run : ScanRun) (e : ScanError) (Clean : Type 0)
      → run.error ≡ some e
      → ¬ Clean
      → length run.emitted ≡ 0
      → length run.written ≤ 1
      → Accounts run Clean
  fails run e Clean h no_clean a b =
      ((λ k. absurd (ground arith), λ c. absurd (no_clean c)), omega arith, omega arith)

  abbrev run : ℕ → Map ℕ SnapshotSocket → List Str → ScanRun
  run = scan_listeners input

  -- How the run goes on, by what the next two lines are.
  data Next (round : ℕ) (known : Map ℕ SnapshotSocket) (line reply : Str) (rest : List Str)
      : Type 0 where
    fails_with :
        (e : ScanError) (ws : List Str)
        → length ws ≤ 1
        → run round known (line ∷ reply ∷ rest)
          ≡ record { emitted = []; written = ws; error = some e }
        → ¬ RunsCleanly round (line ∷ reply ∷ rest)
        → Next round known line reply rest
    goes_on :
        (c : CapabilitySnapshot) (bs : List SnapshotBanner) (w : Str)
        → read_snapshot input line ≡ some c
        → read_banners input reply ≡ some bs
        → input.write_fails round ≡ false
        → run round known (line ∷ reply ∷ rest) ≡ record {
          emitted =
              (scan_round c bs known).0 ∷ (run (suc round) (scan_round c bs known).1 rest).emitted;
          written = w ∷ (run (suc round) (scan_round c bs known).1 rest).written;
          error = (run (suc round) (scan_round c bs known).1 rest).error;
        }
        → Next round known line reply rest

  next_of :
      (round : ℕ) (known : Map ℕ SnapshotSocket) (line reply : Str) (rest : List Str)
      → Next round known line reply rest
  unfolding scan_listeners scan_round
  next_of round known line reply rest = elim (Option-cases (read_snapshot input line)) [
    | inl e ↦ fails_with invalid_snapshot [] (omega arith) (ground arith) (λ r. ground arith)
    | inr (c, e) ↦ elim (Bool-cases (input.write_fails round)) [
      | inl t ↦ fails_with write_failed [] (omega arith) (ground arith) (λ r. ground arith)
      | inr f ↦ elim (Option-cases (read_banners input reply)) [
        | inl n ↦
            fails_with invalid_snapshot (probe_line (classify c known).probe ∷ []) (omega arith)
              (ground arith) (λ r. ground arith)
        | inr (bs, b) ↦ goes_on c bs (probe_line (classify c known).probe) e b f (ground arith)
      ]
    ]
  ]

  -- A line without a reply ends the run with an error.
  last_line :
      (round : ℕ) (known : Map ℕ SnapshotSocket) (line : Str)
      → (e : ScanError) × (ws : List Str) × (length ws ≤ 1)
        × (run round known (line ∷ []) ≡ record { emitted = []; written = ws; error = some e })
  unfolding scan_listeners
  last_line round known line = elim (Option-cases (read_snapshot input line)) [
    | inl e ↦ (invalid_snapshot, [], omega arith, ground arith)
    | inr (c, e) ↦ elim (Bool-cases (input.write_fails round)) [
      | inl t ↦ (write_failed, [], omega arith, ground arith)
      | inr f ↦
          (no_reply input, probe_line (classify c known).probe ∷ [], omega arith, ground arith)
    ]
  ]

  -- `scanListeners` returns without an error exactly when every line was accepted and answered. In any
  -- case it has written a line for each set that it emitted, and at most one more.
  pub scan_listeners-error :
      (round : ℕ) (known : Map ℕ SnapshotSocket) (lines : List Str)
      → Accounts (scan_listeners input round known lines) (RunsCleanly round lines)
  scan_listeners-error round known [] =
      unfold scan_listeners in ((λ h. ground arith, λ h. ground arith), omega arith, omega arith)
  scan_listeners-error round known (line ∷ []) =
      let (e, ws, few, same) = last_line round known line in
      rw same
        (fails (record { emitted = []; written = ws; error = some e }) e ⊥ refl (λ b. b) refl few)
  scan_listeners-error round known (line ∷ reply ∷ rest) =
      elim (next_of round known line reply rest) [
        | fails_with e ws few same dirty ↦
            rw same (
              fails (record { emitted = []; written = ws; error = some e }) e _ refl dirty refl few)
        | goes_on c bs w read replied wrote same ↦
            let (clean, less, more) =
              scan_listeners-error (suc round) (scan_round c bs known).1 rest in
            rw same (
              (λ h. (ap is_some read, wrote, ap is_some replied, clean.0 h), λ h. clean.1 h.3),
              omega arith,
              omega arith,
            )
      ]

  decoded :
      (line : Str) (c : CapabilitySnapshot)
      → read_snapshot input line ≡ some c
      → input.decode_snapshot line ≡ some c
  unfolding read_snapshot
  decoded line c h = elim (Option-cases (input.decode_snapshot line)) [
    | inl e ↦ absurd (ground arith)
    | inr (d, e) ↦ ground arith
  ]

  abbrev Hides : ℕ → ScanRun → Type 0
  Hides p r = All (λ ls. listed p ls ≡ false) r.emitted

  -- While every line that is read as an observation shows the same socket for a port and this socket is
  -- known to be an SSH server's, no set of listeners that is emitted has the port.
  pub scan_listeners-hides :
      (p : ℕ) (s : SnapshotSocket) (round : ℕ) (known : Map ℕ SnapshotSocket) (lines : List Str)
      → lookup p known ≡ some s
      → ((line : Str) (snapshot : CapabilitySnapshot)
          → contains (observations lines) line ≡ true
          → input.decode_snapshot line ≡ some snapshot
          → socket_at p (reachable_sockets snapshot) ≡ some s)
      → All (λ ls. listed p ls ≡ false) (scan_listeners input round known lines).emitted
  unfolding contains observations
  scan_listeners-hides p s round known [] e f = unfold scan_listeners in tt
  scan_listeners-hides p s round known (line ∷ []) e f =
      let (e, ws, few, same) = last_line round known line in subst (Hides p) (sym same) tt
  scan_listeners-hides p s round known (line ∷ reply ∷ rest) e f =
      elim (next_of round known line reply rest) [
        | fails_with e ws few same dirty ↦ subst (Hides p) (sym same) tt
        | goes_on c bs w read replied wrote same ↦
            let (after, shown) = scan_round_lem c bs known p in
            let here = f line c (ground (arith, ==_refl line)) (decoded line c read) in
            subst (Hides p) (sym same) (
              shown ∙ ground (arith, ==_refl s),
              scan_listeners-hides p s (suc round) (scan_round c bs known).1 rest
                  (after ∙ ground (arith, ==_refl s)) (λ l d h. f l d (ground arith)),
            )
      ]
