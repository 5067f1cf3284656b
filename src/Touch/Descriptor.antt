-- ===== src/Touch/Descriptor.antt =====
-- The report descriptor of the gadget: buildroot/external/package/hidg-touch/usb_desc.c.
use gud.Base.{ℕ, ◌+◌, ◌%◌, List, [], ◌∷◌, ◌++◌, length, take, drop}
use gud.Touch.{store_le16}

-- One line for each item.
unfoldable pub multitouch_report_desc : List ℕ
multitouch_report_desc =
    5 ∷ 13 ∷ 9 ∷ 4 ∷ 161 ∷ 1 ∷ 9 ∷ 34 ∷ 161 ∷ 2 ∷ 9 ∷ 66 ∷ 21 ∷ 0 ∷ 37 ∷ 1 ∷ 117 ∷ 1 ∷ 149 ∷ 1 ∷ 129
    ∷ 2 ∷ 9 ∷ 81 ∷ 37 ∷ 127 ∷ 117 ∷ 7 ∷ 149 ∷ 1 ∷ 129 ∷ 2 ∷ 5 ∷ 1 ∷ 101 ∷ 0 ∷ 117 ∷ 16 ∷ 149 ∷ 1 ∷ 9
    ∷ 48 ∷ 22 ∷ 0 ∷ 0 ∷ 38 ∷ 0 ∷ 0 ∷ 129 ∷ 2 ∷ 9 ∷ 49 ∷ 22 ∷ 0 ∷ 0 ∷ 38 ∷ 0 ∷ 0 ∷ 129 ∷ 2 ∷ 192 ∷ 5
    ∷ 13 ∷ 21 ∷ 0 ∷ 39 ∷ 255 ∷ 255 ∷ 0 ∷ 0 ∷ 117 ∷ 16 ∷ 149 ∷ 1 ∷ 9 ∷ 86 ∷ 129 ∷ 2 ∷ 9 ∷ 84 ∷ 37
    ∷ 127 ∷ 149 ∷ 1 ∷ 117 ∷ 8 ∷ 129 ∷ 2 ∷ 5 ∷ 13 ∷ 9 ∷ 85 ∷ 37 ∷ 0 ∷ 117 ∷ 8 ∷ 149 ∷ 1 ∷ 177 ∷ 2
    ∷ 192 ∷ []

-- Bytes written over others from `at` on.
unfoldable pub patch : ℕ → List ℕ → List ℕ → List ℕ
patch at bytes buf = take at buf ++ (bytes ++ drop (at + length bytes) buf)

unfoldable pub get_multitouch_report_desc : ℕ → ℕ → ℕ → ℕ → ℕ → List ℕ
unfolding multitouch_report_desc patch
get_multitouch_report_desc num_slots min_x max_x min_y max_y = patch 93 ((num_slots % 256) ∷ []) (
    patch 56 (store_le16 max_y) (
      patch 53 (store_le16 min_y)
        (patch 46 (store_le16 max_x) (patch 43 (store_le16 min_x) multitouch_report_desc))))
