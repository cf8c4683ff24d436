-- ===== src/PassportService/Verify/Checked.antt =====
-- What a passport that is reported as verified stands on.
use nightpass.Base.{◌≡◌, ◌⊎◌, Bool, true, false, Option, some, Text, text_eq, truthy, or_else}
use nightpass.Base.Maps.{lookup}
use nightpass.Base.Splits.{Env}
use nightpass.PassportAnchor.Network.{Config, or_default, effective_network, verify_peers}
use nightpass.StateVerify.{SelectorArgs}
use nightpass.PassportService.Verify.{
  AnchoredRow, StateAnswer, PeerAnswer, Check, Verification, selector_of,
}

module _ (env : Env) (cfg : Config) (blake2b : Text → Text) (can_override : Bool)
    (read_state : SelectorArgs → Option Text → Option StateAnswer)
    (ask_peer : Text → Text → Option PeerAnswer) where
  -- The read of the row's record on its own network, or the server's if it has none, says so.
  abbrev pub ReadSaysSo : AnchoredRow → Check → Type 0
  ReadSaysSo row c =
      (sel : SelectorArgs) × (network : Option Text) × (a : StateAnswer) × (selector_of env cfg
          blake2b can_override read_state ask_peer row
        ≡ some sel)
      × (read_state sel network ≡ some a)
      × (a.verified ≡ true)
      × (or_else network (effective_network env cfg)
          ≡ or_default row.anchor_network (effective_network env cfg))
      × (c.checked_network ≡ some (or_default row.anchor_network (effective_network env cfg)))

  -- The peer of the row's network says so, where this server may not or cannot read that network.
  abbrev pub PeerSaysSo : AnchoredRow → Type 0
  PeerSaysSo row =
      (network : Text) × (base : Text) × (b : PeerAnswer) × (truthy row.anchor_network
        ≡ some network)
      × (text_eq network (effective_network env cfg) ≡ false)
      × (lookup network (verify_peers env) ≡ some base)
      × (ask_peer base row.passport_id ≡ some b)
      × (b.verified ≡ true)

  abbrev Stands : Verification → Type 0
  Stands w = w.check.verified ≡ true → ReadSaysSo w.row w.check ⊎ PeerSaysSo w.row
