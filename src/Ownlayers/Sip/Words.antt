-- ===== src/Ownlayers/Sip/Words.antt =====
-- ownlayers/sip.go: the versions and methods of SIP, and the compact forms of header names.
-- Letters are changed to upper or lower case within ASCII, as SIP's tokens are.
use heplify.Common.{ℕ, ◌+◌, ◌-◌, ◌&&◌, List, [], ◌∷◌, Option, none, some, leb, if◌then◌else◌}
use heplify.Common.Bytes.{Bytes, bytes_eq}

abbrev upper_letter : ℕ → ℕ
upper_letter b = if leb 97 b && leb b 122 then b - 32 else b

abbrev lower_letter : ℕ → ℕ
lower_letter b = if leb 65 b && leb b 90 then b + 32 else b

unfoldable pub to_upper : Bytes → Bytes
to_upper [] = []
to_upper (b ∷ s) = upper_letter b ∷ to_upper s

unfoldable pub to_lower : Bytes → Bytes
to_lower [] = []
to_lower (b ∷ s) = lower_letter b ∷ to_lower s

pub data SipVersion : Type 0 where
  version1 version2 : SipVersion

-- `SIPVersion.String`: "SIP/1.0" and "SIP/2.0".
abbrev pub version_text : SipVersion → Bytes
version_text version1 = 83 ∷ 73 ∷ 80 ∷ 47 ∷ 49 ∷ 46 ∷ 48 ∷ []
version_text version2 = 83 ∷ 73 ∷ 80 ∷ 47 ∷ 50 ∷ 46 ∷ 48 ∷ []

pub data SipMethod : Type 0 where
  invite ack bye cancel options register prack subscribe notify publish info refer message update
        ping :
      SipMethod

-- `SIPMethod.String`
abbrev pub method_text : SipMethod → Bytes
method_text invite = 73 ∷ 78 ∷ 86 ∷ 73 ∷ 84 ∷ 69 ∷ []
method_text ack = 65 ∷ 67 ∷ 75 ∷ []
method_text bye = 66 ∷ 89 ∷ 69 ∷ []
method_text cancel = 67 ∷ 65 ∷ 78 ∷ 67 ∷ 69 ∷ 76 ∷ []
method_text options = 79 ∷ 80 ∷ 84 ∷ 73 ∷ 79 ∷ 78 ∷ 83 ∷ []
method_text register = 82 ∷ 69 ∷ 71 ∷ 73 ∷ 83 ∷ 84 ∷ 69 ∷ 82 ∷ []
method_text prack = 80 ∷ 82 ∷ 65 ∷ 67 ∷ 75 ∷ []
method_text subscribe = 83 ∷ 85 ∷ 66 ∷ 83 ∷ 67 ∷ 82 ∷ 73 ∷ 66 ∷ 69 ∷ []
method_text notify = 78 ∷ 79 ∷ 84 ∷ 73 ∷ 70 ∷ 89 ∷ []
method_text publish = 80 ∷ 85 ∷ 66 ∷ 76 ∷ 73 ∷ 83 ∷ 72 ∷ []
method_text info = 73 ∷ 78 ∷ 70 ∷ 79 ∷ []
method_text refer = 82 ∷ 69 ∷ 70 ∷ 69 ∷ 82 ∷ []
method_text message = 77 ∷ 69 ∷ 83 ∷ 83 ∷ 65 ∷ 71 ∷ 69 ∷ []
method_text update = 85 ∷ 80 ∷ 68 ∷ 65 ∷ 84 ∷ 69 ∷ []
method_text ping = 80 ∷ 73 ∷ 78 ∷ 71 ∷ []

-- The case of a switch on a string.
unfoldable pub find_case {ℓ} : {A : Type ℓ} → Bytes → List (Bytes × A) → Option A
find_case s [] = none
find_case s ((word, a) ∷ more) =
    let further = find_case s more in if bytes_eq s word then some a else further

abbrev pub version_cases : List (Bytes × SipVersion)
version_cases =
    (83 ∷ 73 ∷ 80 ∷ 47 ∷ 49 ∷ 46 ∷ 48 ∷ [], version1)
    ∷ (83 ∷ 73 ∷ 80 ∷ 47 ∷ 50 ∷ 46 ∷ 48 ∷ [], version2)
    ∷ []

-- `GetSIPVersion`
unfoldable pub get_sip_version : Bytes → Option SipVersion
get_sip_version version = find_case (to_upper version) version_cases

abbrev pub method_cases : List (Bytes × SipMethod)
method_cases =
    -- INVITE
    (73 ∷ 78 ∷ 86 ∷ 73 ∷ 84 ∷ 69 ∷ [], invite)
    ∷
        -- ACK
        (65 ∷ 67 ∷ 75 ∷ [], ack)
    ∷
        -- BYE
        (66 ∷ 89 ∷ 69 ∷ [], bye)
    ∷
        -- CANCEL
        (67 ∷ 65 ∷ 78 ∷ 67 ∷ 69 ∷ 76 ∷ [], cancel)
    ∷
        -- OPTIONS
        (79 ∷ 80 ∷ 84 ∷ 73 ∷ 79 ∷ 78 ∷ 83 ∷ [], options)
    ∷
        -- REGISTER
        (82 ∷ 69 ∷ 71 ∷ 73 ∷ 83 ∷ 84 ∷ 69 ∷ 82 ∷ [], register)
    ∷
        -- PRACK
        (80 ∷ 82 ∷ 65 ∷ 67 ∷ 75 ∷ [], prack)
    ∷
        -- SUBSCRIBE
        (83 ∷ 85 ∷ 66 ∷ 83 ∷ 67 ∷ 82 ∷ 73 ∷ 66 ∷ 69 ∷ [], subscribe)
    ∷
        -- NOTIFY
        (78 ∷ 79 ∷ 84 ∷ 73 ∷ 70 ∷ 89 ∷ [], notify)
    ∷
        -- PUBLISH
        (80 ∷ 85 ∷ 66 ∷ 76 ∷ 73 ∷ 83 ∷ 72 ∷ [], publish)
    ∷
        -- INFO
        (73 ∷ 78 ∷ 70 ∷ 79 ∷ [], info)
    ∷
        -- REFER
        (82 ∷ 69 ∷ 70 ∷ 69 ∷ 82 ∷ [], refer)
    ∷
        -- MESSAGE
        (77 ∷ 69 ∷ 83 ∷ 83 ∷ 65 ∷ 71 ∷ 69 ∷ [], message)
    ∷
        -- UPDATE
        (85 ∷ 80 ∷ 68 ∷ 65 ∷ 84 ∷ 69 ∷ [], update)
    ∷
        -- PING
        (80 ∷ 73 ∷ 78 ∷ 71 ∷ [], ping)
    ∷ []

-- `GetSIPMethod`
unfoldable pub get_sip_method : Bytes → Option SipMethod
get_sip_method method = find_case (to_upper method) method_cases

-- `compactSipHeadersCorrespondance`
abbrev pub compact_forms : List (Bytes × Bytes)
compact_forms =
    -- accept-contact
    (97 ∷ 99 ∷ 99 ∷ 101 ∷ 112 ∷ 116 ∷ 45 ∷ 99 ∷ 111 ∷ 110 ∷ 116 ∷ 97 ∷ 99 ∷ 116 ∷ [], 97 ∷ [])
    ∷
        -- allow-events
        (97 ∷ 108 ∷ 108 ∷ 111 ∷ 119 ∷ 45 ∷ 101 ∷ 118 ∷ 101 ∷ 110 ∷ 116 ∷ 115 ∷ [], 117 ∷ [])
    ∷
        -- call-id
        (99 ∷ 97 ∷ 108 ∷ 108 ∷ 45 ∷ 105 ∷ 100 ∷ [], 105 ∷ [])
    ∷
        -- contact
        (99 ∷ 111 ∷ 110 ∷ 116 ∷ 97 ∷ 99 ∷ 116 ∷ [], 109 ∷ [])
    ∷
        -- content-encoding
        (
          99 ∷ 111 ∷ 110 ∷ 116 ∷ 101 ∷ 110 ∷ 116 ∷ 45 ∷ 101 ∷ 110 ∷ 99 ∷ 111 ∷ 100 ∷ 105 ∷ 110 ∷ 103
              ∷ [],
          101 ∷ [],
        )
    ∷
        -- content-length
        (
          99 ∷ 111 ∷ 110 ∷ 116 ∷ 101 ∷ 110 ∷ 116 ∷ 45 ∷ 108 ∷ 101 ∷ 110 ∷ 103 ∷ 116 ∷ 104 ∷ [],
          108 ∷ [],
        )
    ∷
        -- content-type
        (99 ∷ 111 ∷ 110 ∷ 116 ∷ 101 ∷ 110 ∷ 116 ∷ 45 ∷ 116 ∷ 121 ∷ 112 ∷ 101 ∷ [], 99 ∷ [])
    ∷
        -- event
        (101 ∷ 118 ∷ 101 ∷ 110 ∷ 116 ∷ [], 111 ∷ [])
    ∷
        -- from
        (102 ∷ 114 ∷ 111 ∷ 109 ∷ [], 102 ∷ [])
    ∷
        -- identity
        (105 ∷ 100 ∷ 101 ∷ 110 ∷ 116 ∷ 105 ∷ 116 ∷ 121 ∷ [], 121 ∷ [])
    ∷
        -- refer-to
        (114 ∷ 101 ∷ 102 ∷ 101 ∷ 114 ∷ 45 ∷ 116 ∷ 111 ∷ [], 114 ∷ [])
    ∷
        -- referred-by
        (114 ∷ 101 ∷ 102 ∷ 101 ∷ 114 ∷ 114 ∷ 101 ∷ 100 ∷ 45 ∷ 98 ∷ 121 ∷ [], 98 ∷ [])
    ∷
        -- reject-contact
        (
          114 ∷ 101 ∷ 106 ∷ 101 ∷ 99 ∷ 116 ∷ 45 ∷ 99 ∷ 111 ∷ 110 ∷ 116 ∷ 97 ∷ 99 ∷ 116 ∷ [],
          106 ∷ [],
        )
    ∷
        -- request-disposition
        (
          114 ∷ 101 ∷ 113 ∷ 117 ∷ 101 ∷ 115 ∷ 116 ∷ 45 ∷ 100 ∷ 105 ∷ 115 ∷ 112 ∷ 111 ∷ 115 ∷ 105
              ∷ 116 ∷ 105 ∷ 111 ∷ 110 ∷ [],
          100 ∷ [],
        )
    ∷
        -- session-expires
        (
          115 ∷ 101 ∷ 115 ∷ 115 ∷ 105 ∷ 111 ∷ 110 ∷ 45 ∷ 101 ∷ 120 ∷ 112 ∷ 105 ∷ 114 ∷ 101 ∷ 115
              ∷ [],
          120 ∷ [],
        )
    ∷
        -- subject
        (115 ∷ 117 ∷ 98 ∷ 106 ∷ 101 ∷ 99 ∷ 116 ∷ [], 115 ∷ [])
    ∷
        -- supported
        (115 ∷ 117 ∷ 112 ∷ 112 ∷ 111 ∷ 114 ∷ 116 ∷ 101 ∷ 100 ∷ [], 107 ∷ [])
    ∷
        -- to
        (116 ∷ 111 ∷ [], 116 ∷ [])
    ∷
        -- via
        (118 ∷ 105 ∷ 97 ∷ [], 118 ∷ [])
    ∷ []
