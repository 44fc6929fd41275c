-- ===== src/Incidents/Hosts.antt =====
-- What `extractCleanIp` keeps of an address with a port.
use threat_lens.Base.{
  ◌≡◌, refl, arith, codes, Text, [], false, includes, is_truthy, starts_with, trim, true, ◌++◌, ◌∷◌,
}
use threat_lens.Base.Split.{IsPlain, split_parts-append}
use threat_lens.Incidents.{extract_clean_ip}

one_colon : (port : Text) → IsPlain b':' port → includes port (codes "::") ≡ false
unfolding includes starts_with
one_colon [] h = refl
one_colon (c ∷ port) h = rw h.0 (one_colon port h.1)

no_double_colon :
    (host port : Text)
    → IsPlain b':' host
    → IsPlain b':' port
    → includes (host ++ (b':' ∷ port)) (codes "::") ≡ false
unfolding includes starts_with
no_double_colon [] [] h p = refl
no_double_colon [] (c ∷ port) h p = rw p.0 (one_colon port p.1)
no_double_colon (c ∷ host) port h p = rw h.0 (no_double_colon host port h.1 p)

has_colon : (host port : Text) → includes (host ++ (b':' ∷ port)) (codes ":") ≡ true
unfolding includes starts_with
has_colon [] port = refl
has_colon (c ∷ host) port = ground (arith, has_colon host port)

-- Of an address with a port, `extractCleanIp` keeps the address, provided that neither holds a
-- colon and that there are no blanks at the ends.
pub extract_clean_ip-host :
    (host port : Text)
    → IsPlain b':' host
    → IsPlain b':' port
    → is_truthy (host ++ (b':' ∷ port)) ≡ true
    → trim (host ++ (b':' ∷ port)) ≡ host ++ (b':' ∷ port)
    → extract_clean_ip (host ++ (b':' ∷ port)) ≡ host
unfolding extract_clean_ip
extract_clean_ip-host host port h p t e =
    rw
      (
        t,
        e,
        has_colon host port,
        no_double_colon host port h p,
        split_parts-append b':' host port h refl,
      )
      refl
