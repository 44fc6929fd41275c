-- ===== src/Display/Motion.antt =====
-- frontend/src/lib/motion.ts: `useMotionEnabled`. `param` is the parameter `motion` of the address,
-- and `reduced` whether the browser asks for reduced motion.
use threat_lens.Base.{
  codes, Bool, Option, Text, [], false, if◌then◌else◌, is_truthy, none, not, or_default, some,
  text_eq, true,
}

unfoldable pub motion_enabled : (window : Bool) → (param : Option Text) → (reduced : Bool) → Bool
unfolding text_eq
motion_enabled false param reduced = true
motion_enabled true none reduced = not reduced
motion_enabled true (some param) reduced =
    if text_eq param (codes "off")
    then false
    else if text_eq param (codes "on")
    then true
    else not reduced

-- The listener of the media query.
unfoldable pub preference_changed :
    (param : Option Text) → (reduced : Bool) → (enabled : Bool) → Bool
preference_changed param reduced enabled =
    if is_truthy (or_default param []) then enabled else not reduced
