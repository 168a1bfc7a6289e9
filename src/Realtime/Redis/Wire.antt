-- ===== src/Realtime/Redis/Wire.antt =====
-- The channels of a prefix on the wire: a message comes back to the channel that it was sent to.
use flowpanel.Base.{String, ◌≡◌, sym, ap, ◌∙◌, ◌==◌, eq_iff, false, arith}
use Prim.Native.String.{◌++◌ as append}
use text.Mathlib.TextPositions.{starts_with-append, slice-append_right, len-append}
use flowpanel.Realtime.Redis.{wire_channel, channel_of}

-- Whatever the prefix, `dispatch` reads off a wire channel the channel that `wireChannel` made it
-- from, a channel with colons in it or one that begins with the prefix included.
pub channel_of-wire_channel :
    (key_prefix channel : String)
    → channel_of key_prefix (wire_channel key_prefix channel) ≡ channel
unfolding channel_of wire_channel
channel_of-wire_channel key_prefix channel =
    let head : String = append key_prefix ":" in
    rw (starts_with-append head channel, len-append head channel) (slice-append_right head channel)

-- Channels share no wire channel.
pub wire_channel-ne :
    (key_prefix c d : String)
    → (c == d) ≡ false
    → (wire_channel key_prefix c == wire_channel key_prefix d) ≡ false
wire_channel-ne key_prefix c d ne =
    let one : (wire_channel key_prefix c ≡ wire_channel key_prefix d) → c ≡ d = λ e.
      sym (channel_of-wire_channel key_prefix c)
      ∙ ap (channel_of key_prefix) e
      ∙ channel_of-wire_channel key_prefix d in
    ground (arith, eq_iff c d, eq_iff (wire_channel key_prefix c) (wire_channel key_prefix d), one)
