-- ===== src/Utils/Tests.antt =====
-- Serial numbers and Base64 on concrete values.
use wlan_cloud_ucentralfms.Utils.Hex.{isxdigit}
use wlan_cloud_ucentralfms.Common.{◌≡◌, refl, some, [], ◌∷◌, arith, codes}
use wlan_cloud_ucentralfms.Utils.Serial.{
  serial_to_mac, mac_to_int, serial_number_to_int, int_to_serial_number,
}
use wlan_cloud_ucentralfms.Utils.Serial.RoundTrip.{serial_number_to_int-int_to_serial_number}
use wlan_cloud_ucentralfms.Utils.Serial.Mac.{mac_to_int-serial_to_mac}
use wlan_cloud_ucentralfms.Utils.Base64.{base64encode, base64decode, ok}
use wlan_cloud_ucentralfms.Utils.Base64.RoundTrip.{base64decode-base64encode}

serial_number_to_int-int_to_serial_number_example :
    serial_number_to_int (int_to_serial_number 40674911035696) ≡ some 40674911035696
serial_number_to_int-int_to_serial_number_example =
    serial_number_to_int-int_to_serial_number 40674911035696 (omega arith)

mac_to_int-serial_to_mac_example :
    serial_number_to_int (codes "24F5a207a130")
    ≡ some (mac_to_int (serial_to_mac (codes "24F5a207a130")))
unfolding isxdigit
mac_to_int-serial_to_mac_example = mac_to_int-serial_to_mac (codes "24F5a207a130") refl (
  refl,
  (refl, (refl, (refl, (refl, (refl, (refl, (refl, (refl, (refl, (refl, (refl, tt))))))))))),
)

base64decode-base64encode_example :
    base64decode (base64encode (0 ∷ 255 ∷ 128 ∷ 7 ∷ [])) ≡ ok (0 ∷ 255 ∷ 128 ∷ 7 ∷ [])
base64decode-base64encode_example =
    base64decode-base64encode (0 ∷ 255 ∷ 128 ∷ 7 ∷ [])
      (omega arith, (omega arith, (omega arith, (omega arith, tt))))
