-- ===== src/Zones/RoundTrip/Keys.antt =====
-- Every key that the renderers write can be read.
use mandrake.Common.{refl}
use mandrake.Common.Text.{codes}
use mandrake.Common.Text.Parts.{trim, is_whitespace}
use mandrake.Zones.RoundTrip.Settings.{IsKey}

pub linkname : IsKey (codes "linkname")
unfolding codes trim is_whitespace
linkname = record { no_equals = refl; trimmed = refl; ends = refl }

pub lower_link : IsKey (codes "lower-link")
unfolding codes trim is_whitespace
lower_link = record { no_equals = refl; trimmed = refl; ends = refl }

pub mac_address : IsKey (codes "mac-address")
unfolding codes trim is_whitespace
mac_address = record { no_equals = refl; trimmed = refl; ends = refl }

pub vlan_id : IsKey (codes "vlan-id")
unfolding codes trim is_whitespace
vlan_id = record { no_equals = refl; trimmed = refl; ends = refl }

pub allowed_address : IsKey (codes "allowed-address")
unfolding codes trim is_whitespace
allowed_address = record { no_equals = refl; trimmed = refl; ends = refl }

pub defrouter : IsKey (codes "defrouter")
unfolding codes trim is_whitespace
defrouter = record { no_equals = refl; trimmed = refl; ends = refl }

pub ncpus : IsKey (codes "ncpus")
unfolding codes trim is_whitespace
ncpus = record { no_equals = refl; trimmed = refl; ends = refl }

pub physical : IsKey (codes "physical")
unfolding codes trim is_whitespace
physical = record { no_equals = refl; trimmed = refl; ends = refl }

pub name : IsKey (codes "name")
unfolding codes trim is_whitespace
name = record { no_equals = refl; trimmed = refl; ends = refl }

pub type : IsKey (codes "type")
unfolding codes trim is_whitespace
type = record { no_equals = refl; trimmed = refl; ends = refl }

pub value : IsKey (codes "value")
unfolding codes trim is_whitespace
value = record { no_equals = refl; trimmed = refl; ends = refl }

pub match : IsKey (codes "match")
unfolding codes trim is_whitespace
match = record { no_equals = refl; trimmed = refl; ends = refl }

pub dir : IsKey (codes "dir")
unfolding codes trim is_whitespace
dir = record { no_equals = refl; trimmed = refl; ends = refl }

pub special : IsKey (codes "special")
unfolding codes trim is_whitespace
special = record { no_equals = refl; trimmed = refl; ends = refl }

pub brand : IsKey (codes "brand")
unfolding codes trim is_whitespace
brand = record { no_equals = refl; trimmed = refl; ends = refl }

pub zonepath : IsKey (codes "zonepath")
unfolding codes trim is_whitespace
zonepath = record { no_equals = refl; trimmed = refl; ends = refl }

pub autoboot : IsKey (codes "autoboot")
unfolding codes trim is_whitespace
autoboot = record { no_equals = refl; trimmed = refl; ends = refl }

pub ip_type : IsKey (codes "ip-type")
unfolding codes trim is_whitespace
ip_type = record { no_equals = refl; trimmed = refl; ends = refl }
