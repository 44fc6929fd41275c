-- ===== src/Session/LogLine.antt =====
-- frontend/src/components/LoginPage.tsx: the sample log lines, and the tag and the rest that a line
-- is split into. The lines hold no line break, before which the pattern of the source stops.
use threat_lens.Base.{
  Bool, List, Option, Text, [], codes, if◌then◌else◌, none, some, text_eq, ℕ, ◌&&◌, ◌∷◌, ◌++◌, ◌||◌,
  leb, ◌==◌, trim_start, take, drop,
}

-- `mockLogTemplates`
abbrev pub mock_log_templates : List Text
mock_log_templates =
    codes "[eth0] IN 45.33.22.11:443 -> 192.168.1.100:54321 TCP FIN,ACK"
    ∷ codes "[eth0] IN 185.199.108.153:80 -> 192.168.1.101:49152 TCP SYN"
    ∷ codes "[core] BUFFER_SYNC 0x00A8F1 complete (t=12ms)"
    ∷ codes "[eth1] OUT 192.168.1.102:443 -> 8.8.8.8:53 UDP"
    ∷ codes "[eth0] IN 92.168.1.103:22 -> 104.21.44.31:443 TCP PSH,ACK"
    ∷ codes "[eth0] IN 172.16.0.5:443 -> 192.168.1.105:54321 TCP FIN"
    ∷ codes "[core] STREAM_ACTIVE: 45 flows/sec detected"
    ∷ codes "[eth0] IN 23.45.67.89:80 -> 192.168.1.101:49152 TCP SYN"
    ∷ codes "[eth1] OUT 192.168.1.102:443 -> 1.1.1.1:53 UDP"
    ∷ codes "[core] MEM_ALLOC 0x0A9922 (t=8ms)"
    ∷ []

-- `[a-z0-9]`
abbrev is_tag_code : ℕ → Bool
is_tag_code c = (leb 97 c && leb c 122) || (leb 48 c && leb c 57)

abbrev prefixed : ℕ → Option (Text × Text) → Option (Text × Text)
prefixed c none = none
prefixed c (some (word, rest)) = some (c ∷ word, rest)

-- The characters of a tag before a closing bracket, and what stands behind the bracket.
unfoldable pub closed_tag : Text → Option (Text × Text)
closed_tag [] = none
closed_tag (c ∷ text) =
    let behind = closed_tag text in
    if c == 93 then some ([], text) else if is_tag_code c then prefixed c behind else none

abbrev tagged : Option (Text × Text) → Option (Text × Text)
tagged none = none
tagged (some ([], rest)) = none
tagged (some (c ∷ word, rest)) = some (91 ∷ c ∷ word ++ 93 ∷ [], trim_start rest)

-- `log.text.match(/^(\[[a-z0-9]+\])\s*(.*)$/)`
abbrev tag_match : Text → Option (Text × Text)
tag_match [] = none
tag_match (c ∷ text) = if c == 91 then tagged (closed_tag text) else none

-- `tag` and `rest`
unfoldable pub tag_and_rest : Text → Text × Text
unfolding closed_tag trim_start
tag_and_rest text = elim (tag_match text) [ some m ↦ m | none ↦ (take 6 text, drop 6 text) ]

pub data TagColor : Type 0 where
  sky_tag emerald_tag amber_tag plain_tag : TagColor

-- `tagColor`
unfoldable pub tag_color : Text → TagColor
unfolding text_eq
tag_color tag =
    if text_eq tag (codes "[eth0]")
    then sky_tag
    else if text_eq tag (codes "[eth1]")
    then emerald_tag
    else if text_eq tag (codes "[core]")
    then amber_tag
    else plain_tag
