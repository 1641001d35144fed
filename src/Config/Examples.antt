-- ===== src/Config/Examples.antt =====
-- Validation of the defaults, with and without a client id.
use discord_proxy_rpc.Base.{◌≡◌, ◌≢◌, refl, [], Text, codes, ok, err, All, trim_space, drop_spaces}
use discord_proxy_rpc.Config.{Config, client_id_required, not_digits, defaults, validate}
use discord_proxy_rpc.Config.Digits.{IsDigit, validate-valid}

abbrev with_client_id : Text → Config
with_client_id id = record defaults { discord = record defaults.discord { client_id = id } }

no_client_id : validate defaults ≡ err client_id_required
unfolding validate defaults trim_space drop_spaces
no_client_id = refl

blank_client_id : validate (with_client_id (codes "  ")) ≡ err client_id_required
unfolding validate trim_space drop_spaces
blank_client_id = refl

letters : validate (with_client_id (codes " 12a")) ≡ err (not_digits (codes "12a"))
unfolding validate trim_space drop_spaces
letters = refl

accepted : validate (with_client_id (codes " 123 ")) ≡ ok (with_client_id (codes "123"))
unfolding validate trim_space drop_spaces
accepted = refl

validate-valid_example :
    (with_client_id (codes "123") ≡ record (with_client_id (codes " 123 ")) {
      discord = record (with_client_id (codes " 123 ")).discord {
        client_id = trim_space (codes " 123 ");
      };
    })
    × (codes "123" ≢ [])
    × All IsDigit (codes "123")
    × (validate (with_client_id (codes "123")) ≡ ok (with_client_id (codes "123")))
validate-valid_example =
    validate-valid (with_client_id (codes " 123 ")) (with_client_id (codes "123")) accepted
