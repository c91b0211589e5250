-- ===== src/Client/Protocol.antt =====
-- internal/ucl-client/dcmapi/dcmapi_protocol.go: documents of a name and a command type.
use ucl_tools.Base.{Option, [], Text, text}
use ucl_tools.Document.{str, obj, Fields, end, field}

-- `DcmApiProtocol`.
abbrev pub api_protocol : Text → Text → Fields
api_protocol app_name command_type =
    field (text "format_v1")
      (obj (
        field (text "appli_name") (str app_name)
          (field (text "command_type") (str command_type) end)))
      end

-- The four functions, over `json.Marshal`.
module _ (marshal : Fields → Option Text) where
  unfoldable pub generate_app_comm : Text → Option Text
  generate_app_comm app_name = marshal (api_protocol app_name (text "get_app_command_and_run"))

  unfoldable pub generate_stop_app_comm : Text → Option Text
  generate_stop_app_comm app_name = marshal (api_protocol app_name [])

  unfoldable pub generate_launch_compsitors_comm : Option Text
  generate_launch_compsitors_comm =
      marshal (api_protocol (text "manageCompositors") (text "get_app_command_and_run"))

  unfoldable pub generate_stop_compsitors_comm : Option Text
  generate_stop_compsitors_comm = marshal (api_protocol (text "manageCompositors") [])
