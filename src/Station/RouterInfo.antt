-- ===== src/Station/RouterInfo.antt =====
-- internal/backend/basicstation: router_info.go and handleRouterInfo, which tells a gateway where to connect.
-- `eui_text` is `EUI64.String` of the lorawan library, and `unmarshal_eui` its `UnmarshalText`.
use lora_gateway_bridge.Common.{
  ◌≡◌, ◌≢◌, ◌⊎◌, refl, true, Bool-cases, inl, inr, [], ◌++◌, All, Bytes, codes, Eui64, Option, none,
  some, if◌then◌else◌,
}
use lora_gateway_bridge.Common.Strings.{split, split_one}
use lora_gateway_bridge.Station.Messages.{is_certified, admit}

pub record RouterInfoResponse : Type 0 where
  pub router : Eui64
  pub muxs : Eui64
  pub uri : Bytes
  pub error : Bytes

abbrev common_name_of : Option Bytes → Bytes
common_name_of none = []
common_name_of (some cn) = cn

module _ (unmarshal_eui : Bytes → Option Eui64) (eui_text : Eui64 → Bytes) where
  -- the response for the router, the host that was asked, and the certificate's CommonName
  unfoldable pub handle_router_info : Bytes → Bytes → Option Bytes → Eui64 → RouterInfoResponse
  handle_router_info scheme host common_name router =
      if is_certified unmarshal_eui common_name router
      then record {
        router = router;
        muxs = router;
        uri = scheme ++ codes "://" ++ host ++ (codes "/gateway/" ++ eui_text router);
        error = [];
      }
      else record {
        router = router;
        muxs = router;
        uri = [];
        error =
            codes "certificate CommonName "
            ++ common_name_of common_name
            ++ codes " does not match router "
            ++ eui_text router;
      }

  admit-path :
      (common_name : Option Bytes) (router : Eui64)
      → All (λ c. c ≢ 47) (eui_text router)
      → unmarshal_eui (eui_text router) ≡ some router
      → is_certified unmarshal_eui common_name router ≡ true
      → admit unmarshal_eui
          (record { path = codes "/gateway/" ++ eui_text router; common_name = common_name })
        ≡ some router
  unfolding admit split
  admit-path common_name router no_slash read certified =
      rw (split_one b'/' (eui_text router) no_slash) (rw (read, certified) refl)

  -- Let the text of the router's identifier have no slash and be read back by `UnmarshalText`. If
  -- handleRouterInfo answers without an error, then its URI is the host's with a path on which
  -- handleGateway admits a connection, with the same certificate, as this router; otherwise the URI is empty.
  pub handle_router_info-admit :
      (scheme host : Bytes) (common_name : Option Bytes) (router : Eui64)
      → All (λ c. c ≢ 47) (eui_text router)
      → unmarshal_eui (eui_text router) ≡ some router
      → let response = handle_router_info scheme host common_name router in
        ((response.error ≡ [])
          × ((path : Bytes) × (response.uri ≡ scheme ++ codes "://" ++ host ++ path)
              × (admit unmarshal_eui (record { path = path; common_name = common_name })
                  ≡ some router)))
        ⊎ ((response.error ≢ []) × (response.uri ≡ []))
  unfolding handle_router_info
  handle_router_info-admit scheme host common_name router no_slash read =
      elim (Bool-cases (is_certified unmarshal_eui common_name router)) [
        | inl good ↦ inl (
            rw good (
              refl,
              (
                codes "/gateway/" ++ eui_text router,
                refl,
                admit-path common_name router no_slash read good,
              ),
            ))
        | inr bad ↦ inr (rw bad ((λ e. cc), refl))
      ]
