-- ===== src/Cli/Args.antt =====
-- What the arguments of the command line and a takeover arrive as.
use nssh.Base.{
  ℕ, ◌≡◌, refl, sym, ap, ◌∙◌, true, false, none, some, List, [], ◌∷◌, Bool-cases, inl, inr,
  if◌then◌else◌,
}
use nssh.Base.Int.{ℤ, pos}
use nssh.Base.Text.{String, ◌<>◌, str_eq, split_at, split_all, lacks, is_char}
use Prim.Native.Char.{Char}
use Prim.Native.String.append
use nssh.Base.Table.{find}
use nssh.Config.{Config, Stdlib, normalize_proto, normalize_transport}
use nssh.Config.Load.{
  Env, positive, load_config, default_config, with_args, with_reverse, with_flags, with_tunnel,
}
use text.Mathlib.TextEquality.{eq_iff}
use nssh.Daemon.Worker.{WorkerInfo}
use nssh.Daemon.Params.{build_start_params, config_from_start_params, param, positive_or}
use nssh.Daemon.Params.RoundTrip.{ReadsBack}
use nssh.Base.Split.{front}
use nssh.Daemon.Target.RoundTrip.{split_at_sign}
use nssh.Cli.{parse_positional_args, cli_config, takeover_config}

split_all-append :
    (k : ℕ) (c : Char) (s t : String)
    → is_char k c ≡ true
    → lacks k s ≡ true
    → split_all k (s <> String.◌∷◌ c t) ≡ (s, (split_all k t).0 ∷ (split_all k t).1)
unfolding split_all lacks
split_all-append k c String.[] t sep h =
    ap (split_all k) (append.nil (String.◌∷◌ c t)) ∙ rw sep refl
split_all-append k c (String.◌∷◌ x s) t sep h = elim (Bool-cases (is_char k x)) [
  | inl e ↦ cc (rw e at h)
  | inr e ↦
      ap (split_all k) (append.cons x s (String.◌∷◌ c t))
      ∙ rw (e, split_all-append k c s t sep (rw e at h)) refl
]

split_all_one : (k : ℕ) (s : String) → lacks k s ≡ true → split_all k s ≡ (s, [])
unfolding split_all lacks
split_all_one k String.[] h = refl
split_all_one k (String.◌∷◌ x s) h = elim (Bool-cases (is_char k x)) [
  | inl e ↦ cc (rw e at h)
  | inr e ↦ rw (e, split_all_one k s (rw e at h)) refl
]

split_at_absent : (k : ℕ) (s : String) → lacks k s ≡ true → split_at k s ≡ (s, none)
unfolding split_at lacks
split_at_absent k String.[] h = refl
split_at_absent k (String.◌∷◌ x s) h = elim (Bool-cases (is_char k x)) [
  | inl e ↦ cc (rw e at h)
  | inr e ↦ rw (e, split_at_absent k s (rw e at h)) refl
]

split_three :
    (a b d : String)
    → lacks b':' a ≡ true
    → lacks b':' b ≡ true
    → lacks b':' d ≡ true
    → split_all b':' (a <> (":" <> (b <> (":" <> d)))) ≡ (a, b ∷ d ∷ [])
split_three a b d ha hb hd =
    ap (λ r. split_all b':' (a <> r)) (front ":" (b <> (":" <> d)))
    ∙ split_all-append b':' ":" a (b <> (":" <> d)) refl ha
    ∙ ap (λ p. (a, p.0 ∷ p.1))
        (ap (λ r. split_all b':' (b <> r)) (front ":" d)
          ∙ split_all-append b':' ":" b d refl hb
          ∙ ap (λ p. (b, p.0 ∷ p.1)) (split_all_one b':' d hd))

-- The text of -R.
abbrev pub reverse_text : Stdlib → ℤ → String → ℤ → String
reverse_text std remote host local = std.itoa remote <> (":" <> (host <> (":" <> std.itoa local)))

-- A tunnel and a server that the arguments can name.
pub record IsNameable (std : Stdlib) (user host local_host : String) (remote local : ℤ)
    : Type 0 where
  pub user_plain : lacks b'@' user ≡ true
  pub some_user : str_eq user "" ≡ false
  pub host_plain : lacks b':' host ≡ true
  pub some_host : str_eq host "" ≡ false
  pub local_plain : lacks b':' local_host ≡ true
  pub remote_number : lacks b':' (std.itoa remote) ≡ true
  pub local_number : lacks b':' (std.itoa local) ≡ true
  pub remote_back : ReadsBack std remote
  pub local_back : ReadsBack std local

module _ (std : Stdlib) (user host local_host : String) (remote local : ℤ)
    (n : IsNameable std user host local_host remote local) where
  parts :
      split_all b':' (reverse_text std remote local_host local)
      ≡ (std.itoa remote, local_host ∷ std.itoa local ∷ [])
  parts =
      split_three (std.itoa remote) local_host (std.itoa local) n.remote_number n.local_plain
        n.local_number

  not_empty : str_eq (reverse_text std remote local_host local) "" ≡ false
  not_empty = elim (Bool-cases (str_eq (reverse_text std remote local_host local) "")) [
    | inr e ↦ e
    | inl e ↦ absurd (
        nil≢cons
          (ap (λ r. r.1) (sym empty_text ∙ ap (split_all b':') (sym ((eq_iff _ "").0 e)) ∙ parts)))
  ]
    where
      empty_text : split_all b':' "" ≡ ("", [])
      empty_text = unfold split_all in refl

      nil≢cons : {x : String} {l : List String} → [] ≡ x ∷ l → ⊥
      nil≢cons e = cc

  with_reverse_named :
      (c : Config)
      → with_reverse std (reverse_text std remote local_host local) c
        ≡ some (record c { remote_port = remote; local_host = local_host; local_port = local })
  unfolding with_reverse with_tunnel
  with_reverse_named c = rw (not_empty, parts) (rw (n.remote_back, n.local_back) refl)

  parse_named :
      parse_positional_args std ((user <> ("@" <> host)) ∷ [])
      ≡ record { username = user; server_host = host; server_port = pos 0 }
  unfolding parse_positional_args
  parse_named =
      rw (split_at_sign user host n.user_plain) (rw (split_at_absent b':' host n.host_plain) refl)

-- The arguments -R remote:local_host:local, -p, --passwd and user@host arrive in the
-- configuration, whatever the environment says, for texts without separators in them, numbers
-- that strconv reads back, and a positive port and reconnect delay; the reconnect delay and the
-- lifetime are those of the flags, also where the environment sets others.
pub cli_config_named :
    (std : Stdlib) (env : Env) (version user host local_host password key : String)
    (remote local port delay lifetime : ℤ)
    → IsNameable std user host local_host remote local
    → positive port ≡ true
    → positive delay ≡ true
    → str_eq password "" ≡ false
    → cli_config std env version
        (record {
          reverse_tunnel = reverse_text std remote local_host local;
          port = port;
          password = password;
          ssh_key = key;
          reconnect_delay = delay;
        })
        lifetime
        ((user <> ("@" <> host)) ∷ [])
      ≡ some (record (default_config std env version) {
        username = user;
        server_host = host;
        server_port = port;
        password = password;
        ssh_key_path = if str_eq key "" then (default_config std env version).ssh_key_path else key;
        local_host = local_host;
        local_port = local;
        remote_port = remote;
        reconnect_delay = delay;
        max_lifetime = lifetime;
      })
unfolding cli_config load_config with_args with_flags
cli_config_named std env version user host local_host password key remote local port delay lifetime
      n p d w =
    rw
      (
        with_reverse_named std user host local_host remote local n (default_config std env version),
        parse_named std user host local_host remote local n,
      )
      (simp (p, d, w, n.some_user, n.some_host))

-- A worker that is taken over reaches the new daemon with its user, server, ports, local host and
-- password, and without its SSH key; its protocol and transport become those of an empty text,
-- and its reconnect delay 30 seconds, for numbers that strconv reads back.
pub takeover_config_arrives :
    (std : Stdlib) (w : WorkerInfo)
    → ReadsBack std w.server_port
    → ReadsBack std w.local_port
    → ReadsBack std w.remote_port
    → ReadsBack std (pos 0)
    → config_from_start_params std (build_start_params std (takeover_config w))
      ≡ record (takeover_config w) {
        reconnect_delay = pos 30;
        transport = normalize_transport std "";
        proto = normalize_proto std "";
      }
unfolding config_from_start_params build_start_params param find takeover_config positive_or
takeover_config_arrives std w sp lp rp z =
    ap (λ n. arrived n (back w.local_port) (back w.remote_port) (back (pos 0))) (ap (λ r. r.0) sp)
    ∙ ap (λ n. arrived w.server_port n (back w.remote_port) (back (pos 0))) (ap (λ r. r.0) lp)
    ∙ ap (λ n. arrived w.server_port w.local_port n (back (pos 0))) (ap (λ r. r.0) rp)
    ∙ ap (arrived w.server_port w.local_port w.remote_port) (ap (λ r. r.0) z)
  where
    back : ℤ → ℤ
    back n = (std.atoi (std.itoa n)).0

    arrived : ℤ → ℤ → ℤ → ℤ → Config
    arrived server local remote nothing = record (takeover_config w) {
      server_port = server;
      local_port = local;
      remote_port = remote;
      reconnect_delay = positive_or 30 nothing;
      max_lifetime = nothing;
      transport = normalize_transport std "";
      proto = normalize_proto std "";
    }
