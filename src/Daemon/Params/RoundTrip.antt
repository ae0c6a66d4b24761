-- ===== src/Daemon/Params/RoundTrip.antt =====
-- What a configuration loses on its way to the daemon.
use nssh.Base.{◌<◌, ◌≤◌, ◌≡◌, refl, ap, ◌∙◌, arith, true, false, none}
use nssh.Base.{lt→ltb}
use nssh.Base.Int.{ℤ, pos, pos_part}
use nssh.Base.Text.{str_eq}
use nssh.Base.Table.{find}
use nssh.Config.{Config, Stdlib, normalize_proto, normalize_transport}
use nssh.Daemon.Params.{build_start_params, config_from_start_params, param, positive_or}
use nssh.Daemon.Params.{validate_config, port_ok}

-- The number is read back by strconv.Atoi as strconv.Itoa prints it.
abbrev pub ReadsBack : Stdlib → ℤ → Type 0
ReadsBack std z = std.atoi (std.itoa z) ≡ (z, true)

-- A configuration with a positive reconnect delay, whose numbers strconv reads back, reaches the
-- daemon with its protocol and transport normalised and without its limit of offline marks,
-- compression, UDP settings and version.
pub config_from_start_params-build_start_params :
    (std : Stdlib) (c : Config)
    → ReadsBack std c.server_port
    → ReadsBack std c.local_port
    → ReadsBack std c.remote_port
    → ReadsBack std c.reconnect_delay
    → ReadsBack std c.max_lifetime
    → 0 < pos_part c.reconnect_delay
    → config_from_start_params std (build_start_params std c) ≡ record c {
      transport = normalize_transport std c.transport;
      proto = normalize_proto std c.proto;
      max_offline_count = pos 0;
      compress = false;
      udp_socket_buffer = pos 0;
      udp_max_packet_size = pos 0;
      udp_flow_idle_timeout = pos 0;
      version = "";
    }
unfolding config_from_start_params build_start_params param find
config_from_start_params-build_start_params std c sp lp rp rd ml h =
    ap (λ z. arrived z back_lp back_rp back_rd back_ml) (ap (λ r. r.0) sp)
    ∙ ap (λ z. arrived c.server_port z back_rp back_rd back_ml) (ap (λ r. r.0) lp)
    ∙ ap (λ z. arrived c.server_port c.local_port z back_rd back_ml) (ap (λ r. r.0) rp)
    ∙ ap (λ z. arrived c.server_port c.local_port c.remote_port z back_ml)
        (ap (λ r. positive_or 30 r.0) rd
          ∙ unfold positive_or in rw (lt→ltb 0 (pos_part c.reconnect_delay) h) refl)
    ∙ ap (λ z. arrived c.server_port c.local_port c.remote_port c.reconnect_delay z)
        (ap (λ r. r.0) ml)
  where
    back_lp : ℤ
    back_lp = (std.atoi (std.itoa c.local_port)).0

    back_rp : ℤ
    back_rp = (std.atoi (std.itoa c.remote_port)).0

    back_rd : ℤ
    back_rd = positive_or 30 (std.atoi (std.itoa c.reconnect_delay)).0

    back_ml : ℤ
    back_ml = (std.atoi (std.itoa c.max_lifetime)).0

    arrived : ℤ → ℤ → ℤ → ℤ → ℤ → Config
    arrived server_port local_port remote_port delay lifetime = record c {
      server_port = server_port;
      local_port = local_port;
      remote_port = remote_port;
      reconnect_delay = delay;
      max_lifetime = lifetime;
      transport = normalize_transport std c.transport;
      proto = normalize_proto std c.proto;
      max_offline_count = pos 0;
      compress = false;
      udp_socket_buffer = pos 0;
      udp_max_packet_size = pos 0;
      udp_flow_idle_timeout = pos 0;
      version = "";
    }

in_range : (z : ℤ) → port_ok z ≡ true → (1 ≤ pos_part z) × (pos_part z ≤ 65535)
in_range z h = ground arith

-- A configuration that passes validateConfig has all three ports from 1 to 65535 and hosts that
-- are not empty.
pub validate_config_sound :
    (std : Stdlib) (c : Config)
    → validate_config std c ≡ none
    → ((1 ≤ pos_part c.server_port) × (pos_part c.server_port ≤ 65535))
      × ((1 ≤ pos_part c.local_port) × (pos_part c.local_port ≤ 65535))
      × ((1 ≤ pos_part c.remote_port) × (pos_part c.remote_port ≤ 65535))
      × (str_eq c.server_host "" ≡ false)
      × (str_eq c.local_host "" ≡ false)
unfolding validate_config
validate_config_sound std c h = ground arith
