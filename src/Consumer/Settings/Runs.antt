-- ===== src/Consumer/Settings/Runs.antt =====
-- Concrete runs of a consumer's configuration, and its theorem at a concrete input.
use cupidmq.Common.{◌≡◌, refl, true, none, List, [], ◌∷◌}
use cupidmq.Text.{Text, codes, rsplit_once, parse_uint, parse_digits}
use cupidmq.Consumer.Settings.{
  no_host, bad_port, accepted, refused, parse_host_port, parse_master_addr, Settings,
}
use cupidmq.Consumer.Settings.Builder.{Call, prefetch, batch_timeout}

-- A port above 65535 and a missing host are refused; a master without a port gets the default.
addresses :
    (parse_host_port (codes ":9760") ≡ refused no_host)
    × (parse_host_port (codes "a:65536") ≡ refused bad_port)
    × (parse_master_addr (codes "master") ≡ accepted (codes "master", 9750))
    × (parse_master_addr (codes "master:1") ≡ accepted (codes "master", 1))
unfolding parse_host_port parse_master_addr rsplit_once parse_uint parse_digits
addresses = (refl, refl, refl, refl)

abbrev calls : List Call
calls = prefetch 0 ∷ batch_timeout 0 ∷ []

abbrev built : Settings
built = record {
  master = codes "m";
  data_addr = codes "h:80";
  bind_addr = none;
  consumer_tag = [];
  max_batch_size_count = 32;
  prefetch_batch_count = 1;
  batch_timeout_secs = 1;
  data_idle_secs = 60;
  reconnect = true;
  reconnect_delay_secs = 2;
}
