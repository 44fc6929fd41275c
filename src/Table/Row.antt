-- ===== src/Table/Row.antt =====
-- frontend/src/components/ThreatTable.tsx: what a row shows, the keys of a row, the archive pages
-- and the status menu.
use threat_lens.Base.{
  ◌≡◌, Bool, List, Option, String, Text, [], arith, codes, false, if◌then◌else◌, is_truthy, none,
  or_default, some, text_eq, true, ℕ, ◌&&◌, ◌++◌, ◌+◌, ◌-◌, ◌==◌, ◌||◌, ◌∷◌, append-nil, ◌∙◌,
}
use threat_lens.Base.Split.{but_last, join, join-split, last_or, split_parts, join-but_last}
use threat_lens.Types.{Alert, Evidence}

abbrev present {ℓ} : {A : Type ℓ} → Option A → Bool
present none = false
present (some a) = true

-- A string that is set and not empty.
abbrev truthy? : Option Text → Bool
truthy? o = is_truthy (or_default o [])

abbrev tag_if : Bool → String → List Text → List Text
tag_if b tag tags = if b then codes tag ∷ tags else tags

-- `getEvidenceTags`
unfoldable pub get_evidence_tags : Evidence → List Text
get_evidence_tags e = tag_if (truthy? e.ja3_hash || truthy? e.ja4_hash || truthy? e.sni) "TLS" (
    tag_if (present e.splt_packet_sizes || present e.splt_interarrival_times) "SPLT" (
      tag_if (present e.fft_concentration) "FFT" (
        tag_if (truthy? e.dns_query || present e.ngram_score) "DNS" (
          tag_if (present e.z_score) "Z-SCORE" (
            tag_if (present e.unique_destination_hosts) "FAN-OUT"
              (tag_if (present e.total_uploaded_bytes) "EGRESS" []))))))

-- `parts.length > 1` or not, for the first of the parts and the rest.
unfoldable pub format_parts : Text → (first : Text) → List Text → Text × Text
unfolding join but_last
format_parts ip_port first [] = (ip_port, [])
format_parts ip_port first (next ∷ parts) =
    (join b':' (but_last (first ∷ next ∷ parts)), b':' ∷ last_or next parts)

-- `formatIP`: the address, and the port if there is one, with the colon in front of it.
unfoldable pub format_ip : Text → Text × Text
unfolding split_parts format_parts
format_ip ip_port = format_parts ip_port (split_parts b':' ip_port).0 (split_parts b':' ip_port).1

format_parts_shows :
    (ip_port first : Text) (rest : List Text)
    → join b':' (first ∷ rest) ≡ ip_port
    → (format_parts ip_port first rest).0 ++ (format_parts ip_port first rest).1 ≡ ip_port
unfolding format_parts
format_parts_shows ip_port first [] e = append-nil ip_port
format_parts_shows ip_port first (next ∷ parts) e = join-but_last b':' first next parts ∙ e

-- What `formatIP` shows, read from left to right, is its argument: nothing is lost, also in an
-- IPv6 address.
pub format_ip_shows : (ip_port : Text) → (format_ip ip_port).0 ++ (format_ip ip_port).1 ≡ ip_port
unfolding format_ip
format_ip_shows ip_port =
    format_parts_shows ip_port (split_parts b':' ip_port).0 (split_parts b':' ip_port).1
      (join-split b':' ip_port)

-- `isSelected`
unfoldable pub is_selected : Option Alert → Alert → Bool
unfolding text_eq
is_selected none alert = false
is_selected (some chosen) alert =
    text_eq chosen.flow_id alert.flow_id && text_eq chosen.timestamp alert.timestamp

-- The buttons PREV and NEXT of the archive: `none` where the button is disabled.
unfoldable pub prev_page : ℕ → Option ℕ
prev_page page = if page == 0 then none else some (page - 1)

unfoldable pub next_page : (has_next : Bool) → ℕ → Option ℕ
next_page has_next page = if has_next then some (page + 1) else none

-- NEXT and then PREV comes back to the page.
pub prev-next : (page : ℕ) → prev_page (page + 1) ≡ some page
unfolding prev_page
prev-next page = ground arith
