-- ===== src/Server/RowTests.antt =====
-- A row of ports that is saved as it is.
use threat_lens.Base.{◌≡◌, refl, Bool, [], codes, false, none, some, text_eq, true, ◌∷◌}
use threat_lens.Detection.{Value, int_list_kind, numbers}
use threat_lens.Detection.Samples.{
  Port, editor, http, https, read-show, read_port, show_port, show_port-IsPlain, trim-show_port,
}
use threat_lens.Detection.Save.{save_threshold}
use threat_lens.Server.Thresholds.{Numbers, ThresholdSpec, Thresholds}
use threat_lens.Server.Changes.{entry_of, get_spec, put_threshold, with_threshold}
use threat_lens.Server.Resaving.{input_of, resaved}

same_port : Port → Port → Bool
same_port http http = true
same_port https https = true
same_port http https = false
same_port https http = false

less_port : Port → Port → Bool
less_port http https = true
less_port _ _ = false

abbrev port_numbers : Numbers Port
port_numbers = record {
  float_of = read_port;
  int_of = read_port;
  truncated = λ n. n;
  is_finite = λ n. true;
  is_infinite = λ n. false;
  same = same_port;
  less = less_port;
}

same_port_refl : (n : Port) → same_port n n ≡ true
unfolding same_port
same_port_refl http = refl
same_port_refl https = refl

abbrev ports_spec : ThresholdSpec Port
ports_spec = record {
  rule = codes "malware";
  rule_label = codes "Encrypted Malware";
  parameter = codes "tls_ports";
  label = codes "TLS ports";
  description = [];
  kind = int_list_kind;
  minimum = some http;
  maximum = none;
  consumed_by = codes "EncryptedMalwareEngine";
}

abbrev both_ports : Value Port
both_ports = numbers (https ∷ http ∷ [])

abbrev live : Thresholds Port
live = with_threshold (codes "malware") (codes "tls_ports") both_ports (λ r p. none)

resaved_example :
    ((save_threshold show_port read_port
        (entry_of port_numbers ports_spec both_ports (numbers (https ∷ [])))
        editor).requests
      ≡ record { rule = codes "malware"; parameter = codes "tls_ports"; value = some both_ports }
        ∷ [])
    × ((put_threshold port_numbers
            (ports_spec ∷ [])
            live
            (codes "malware")
            (codes "tls_ports")
            (input_of (some both_ports))
            live).1
          (codes "malware")
          (codes "tls_ports")
        ≡ live (codes "malware") (codes "tls_ports"))
unfolding get_spec with_threshold text_eq same_port less_port
resaved_example =
    resaved port_numbers show_port read_port (ports_spec ∷ []) live live ports_spec both_ports
      (numbers (https ∷ [])) editor (codes "malware") (codes "tls_ports") read-show trim-show_port
      show_port-IsPlain same_port_refl refl refl
      (((refl, refl), ((refl, refl), tt)), (λ e. cc), refl)
      ((refl, refl, refl), ((refl, refl, refl), tt)) refl
