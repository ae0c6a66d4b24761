-- ===== src/Udp/Flows/Runs.antt =====
-- Runs of the flow table.
use nssh.Base.{◌≡◌, refl, arith, []}
use nssh.Base.Map.{lookup}
use nssh.Udp.Flows.{sweep_idle_flows}
use nssh.Udp.Flows.Invariant.{IsTable}
use nssh.Udp.Flows.Timeouts.{swept, lookup-sweep_idle_flows}
use nssh.Udp.Sample.{recorder, busy_proxy}

busy_proxy-IsTable : IsTable busy_proxy.flows
unfolding lookup
busy_proxy-IsTable = record {
  one_each = (refl, tt);
  entries = (record { keyed = refl; capped = omega arith }, tt);
}

lookup-sweep_idle_flows_example :
    lookup 9 (sweep_idle_flows recorder busy_proxy 500 []).0.flows
    ≡ swept 300 500 (lookup 9 busy_proxy.flows)
lookup-sweep_idle_flows_example =
    lookup-sweep_idle_flows recorder busy_proxy 500 9 [] busy_proxy-IsTable
