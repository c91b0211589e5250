-- ===== src/Node/Decode/Tests.antt =====
-- What is read of commands that are not as they should be.
use ucl_tools.Base.{◌≡◌, refl, none, some, text, pos, ◌^◌}
use ucl_tools.Document.{number, fraction, str, null, obj, end, field}
use ucl_tools.Document.Decode.{ranged, same_key}
use ucl_tools.Node.Decode.{decode_command, set_format, set_sender, set_node, zero_format}

-- A command with the wrong type for a string, with a number that is no integer or too large for `int`.
decode_errors :
    (decode_command
        (obj (field (text "format_v1") (obj (field (text "appli_name") (number (pos 1)) end)) end))
      ≡ none)
    × (decode_command (
          obj (
            field
              (text "format_v1")
              (obj (
                field
                  (text "sender")
                  (obj (
                    field (text "launcher") (obj (field (text "port") (fraction (pos 1)) end)) end))
                  end))
              end))
        ≡ none)
    × (decode_command (
          obj (
            field
              (text "format_v1")
              (obj (
                field
                  (text "sender")
                  (obj (
                    field
                      (text "launcher")
                      (obj (field (text "port") (number (pos (2 ^ 63))) end))
                      end))
                  end))
              end))
        ≡ none)
unfolding decode_command set_format set_sender set_node same_key ranged
decode_errors = (refl, refl, refl)

-- Keys that are missing, null or unknown leave the zero values, and the case of a key is ignored.
decode_loose :
    decode_command (
      obj (
        field
          (text "FORMAT_V1")
          (obj (
            field
              (text "Appli_Name")
              (str (text "map"))
              (field (text "sender") null (field (text "other") (number (pos 1)) end))))
          end))
    ≡ some (record zero_format { app_name = text "map" })
unfolding decode_command set_format same_key
decode_loose = refl
