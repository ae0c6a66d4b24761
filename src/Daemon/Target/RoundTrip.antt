-- ===== src/Daemon/Target/RoundTrip.antt =====
-- The key of a process, given as a target, names that process.
use nssh.Base.{◌≡◌, refl, sym, ap, ◌∙◌, true, false, none, some, Bool-cases, inl, inr}
use nssh.Base.Int.{ℤ}
use nssh.Base.Text.{String, ◌<>◌, str_eq, split_at, lacks}
use text.Mathlib.TextEquality.{eq_iff}
use nssh.Base.Split.{split_at-append, front}
use nssh.Config.{Stdlib}
use nssh.Daemon.Worker.{generate_process_key}
use nssh.Daemon.Target.{parse_target_spec, with_server, with_host, with_ports}

pub split_colon :
    (s t : String) → lacks b':' s ≡ true → split_at b':' (s <> (":" <> t)) ≡ (s, some t)
split_colon s t h =
    ap (λ r. split_at b':' (s <> r)) (front ":" t) ∙ split_at-append b':' ":" s t refl h

pub split_at_sign :
    (s t : String) → lacks b'@' s ≡ true → split_at b'@' (s <> ("@" <> t)) ≡ (s, some t)
split_at_sign s t h =
    ap (λ r. split_at b'@' (s <> r)) (front "@" t) ∙ split_at-append b'@' "@" s t refl h

not_all : (s t : String) → lacks b':' s ≡ true → str_eq (s <> (":" <> t)) "all" ≡ false
not_all s t h = elim (Bool-cases (str_eq (s <> (":" <> t)) "all")) [
  | inr e ↦ e
  | inl e ↦ absurd (
      none≢some (
        ap (λ r. r.1)
          (sym (split_all_text)
            ∙ ap (split_at b':') (sym ((eq_iff _ "all").0 e))
            ∙ split_colon s t h)))
]
  where
    split_all_text : split_at b':' "all" ≡ ("all", none)
    split_all_text = unfold split_at in refl

    none≢some : {x : String} → none ≡ some x → ⊥
    none≢some e = cc

-- The key of a process, given as a target, is parsed to its user, host and ports, for a user
-- without an at sign, a host without a colon and numbers that strconv reads back.
pub parse_target_spec-generate_process_key :
    (std : Stdlib) (username host : String) (server_port remote_port : ℤ)
    → lacks b'@' username ≡ true
    → lacks b':' host ≡ true
    → lacks b':' (std.itoa server_port) ≡ true
    → std.atoi (std.itoa server_port) ≡ (server_port, true)
    → std.atoi (std.itoa remote_port) ≡ (remote_port, true)
    → parse_target_spec std (generate_process_key std username host server_port remote_port)
      ≡ record {
        username = username;
        server = host;
        server_port = server_port;
        remote_port = remote_port;
        mode = "single";
      }
unfolding parse_target_spec generate_process_key
parse_target_spec-generate_process_key std username host sp rp u h p rs rr =
    ap (with_server std) (split_at_sign username _ u)
    ∙ at_host
    ∙ ap (with_host std username rest) (split_colon host _ h)
    ∙ ap (with_ports std username host) (split_colon (std.itoa sp) (std.itoa rp) p)
    ∙ numbers
  where
    rest : String
    rest = host <> (":" <> (std.itoa sp <> (":" <> std.itoa rp)))

    at_host :
        with_server std (username, some rest) ≡ with_host std username rest (split_at b':' rest)
    at_host = unfold with_server in rw (not_all host (std.itoa sp <> (":" <> std.itoa rp)) h) refl

    numbers : with_ports std username host (std.itoa sp, some (std.itoa rp)) ≡ record {
      username = username;
      server = host;
      server_port = sp;
      remote_port = rp;
      mode = "single";
    }
    numbers = rw (rs, rr)
