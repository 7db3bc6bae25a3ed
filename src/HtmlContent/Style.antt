-- ===== src/HtmlContent/Style.antt =====
-- main/html_content.cpp: the constants that begin and end each page.
use esp32_band_decoder.Base.{[], ◌∷◌}
use esp32_band_decoder.HtmlContent.Lines.{lines_of}
use esp32_band_decoder.Text.{Bytes}

unfoldable pub html_header : Bytes
unfolding lines_of
html_header = lines_of (
    "" ∷ "<!DOCTYPE html>" ∷ "<html lang=\"en\">" ∷ "<head>" ∷ "    <meta charset=\"UTF-8\">"
    ∷ "    <meta name=\"viewport\" content=\"width=device-width, initial-scale=1.0\">"
    ∷ "    <title>Antenna Switch Controller</title>" ∷ "    <style>" ∷ "        :root {"
    ∷ "            --primary-color: #3498db;" ∷ "            --secondary-color: #2c3e50;"
    ∷ "            --background-color: #ecf0f1;" ∷ "            --text-color: #34495e;"
    ∷ "            --border-color: #bdc3c7;" ∷ "        }" ∷ "        body {"
    ∷ "            font-family: 'Segoe UI', Tahoma, Geneva, Verdana, sans-serif;"
    ∷ "            line-height: 1.6;" ∷ "            color: var(--text-color);"
    ∷ "            max-width: 1000px;" ∷ "            margin: 0 auto;"
    ∷ "            padding: 20px;" ∷ "            background-color: var(--background-color);"
    ∷ "        }" ∷ "        h1, h2 {" ∷ "            color: var(--secondary-color);"
    ∷ "            text-align: center;" ∷ "            margin-bottom: 30px;" ∷ "        }"
    ∷ "        .status-container {" ∷ "            display: flex;"
    ∷ "            justify-content: space-between;" ∷ "            margin-bottom: 30px;"
    ∷ "        }" ∷ "        .status-box {" ∷ "            background-color: white;"
    ∷ "            border-radius: 10px;" ∷ "            padding: 20px;"
    ∷ "            box-shadow: 0 4px 6px rgba(0,0,0,0.1);" ∷ "            width: 48%;"
    ∷ "            transition: transform 0.3s ease;" ∷ "        }" ∷ "        .status-box:hover {"
    ∷ "            transform: translateY(-5px);" ∷ "        }" ∷ "        table {"
    ∷ "            width: 100%;" ∷ "            border-collapse: separate;"
    ∷ "            border-spacing: 0;" ∷ "            margin-bottom: 20px;"
    ∷ "            border-radius: 10px;" ∷ "            overflow: hidden;" ∷ "        }"
    ∷ "        th, td {" ∷ "            padding: 15px;" ∷ "            text-align: left;"
    ∷ "            border-bottom: 1px solid var(--border-color);" ∷ "        }" ∷ "        th {"
    ∷ "            font-weight: bold;" ∷ "            color: white;"
    ∷ "            background-color: var(--primary-color);" ∷ "        }"
    ∷ "        tr:last-child td {" ∷ "            border-bottom: none;" ∷ "        }"
    ∷ "        .button-container {" ∷ "            text-align: center;"
    ∷ "            margin-top: 30px;" ∷ "        }" ∷ "        .button, input[type=\"submit\"] {"
    ∷ "            display: inline-block;" ∷ "            background-color: var(--primary-color);"
    ∷ "            color: white;" ∷ "            padding: 12px 24px;"
    ∷ "            border-radius: 25px;" ∷ "            text-decoration: none;"
    ∷ "            transition: all 0.3s ease;" ∷ "            border: none;"
    ∷ "            cursor: pointer;" ∷ "            font-size: 16px;"
    ∷ "            font-weight: bold;" ∷ "            text-transform: uppercase;"
    ∷ "            letter-spacing: 1px;" ∷ "            margin: 0 10px;" ∷ "        }"
    ∷ "        .button:hover, input[type=\"submit\"]:hover {"
    ∷ "            background-color: var(--secondary-color);"
    ∷ "            transform: translateY(-2px);"
    ∷ "            box-shadow: 0 4px 6px rgba(0,0,0,0.1);" ∷ "        }"
    ∷ "        input[type=\"text\"], input[type=\"number\"], select {" ∷ "            width: 100%;"
    ∷ "            padding: 12px;" ∷ "            margin: 8px 0;"
    ∷ "            display: inline-block;" ∷ "            border: 1px solid var(--border-color);"
    ∷ "            border-radius: 4px;" ∷ "            box-sizing: border-box;"
    ∷ "            transition: border-color 0.3s ease;" ∷ "        }"
    ∷ "        input[type=\"text\"]:focus, input[type=\"number\"]:focus, select:focus {"
    ∷ "            border-color: var(--primary-color);" ∷ "            outline: none;" ∷ "        }"
    ∷ "        .config-form {" ∷ "            background-color: white;"
    ∷ "            padding: 30px;" ∷ "            border-radius: 10px;"
    ∷ "            box-shadow: 0 4px 6px rgba(0,0,0,0.1);" ∷ "        }" ∷ "        .form-group {"
    ∷ "            margin-bottom: 20px;" ∷ "        }" ∷ "        label {"
    ∷ "            display: block;" ∷ "            margin-bottom: 8px;"
    ∷ "            font-weight: bold;" ∷ "            color: var(--secondary-color);" ∷ "        }"
    ∷ "        input[type=\"checkbox\"] {" ∷ "            margin-right: 5px;" ∷ "        }"
    ∷ "        .auto-mode-container {" ∷ "            background-color: white;"
    ∷ "            border-radius: 10px;" ∷ "            padding: 20px;"
    ∷ "            box-shadow: 0 4px 6px rgba(0,0,0,0.1);" ∷ "            margin-bottom: 30px;"
    ∷ "        }" ∷ "        .auto-mode-container h2 {" ∷ "            margin-top: 0;" ∷ "        }"
    ∷ "        .auto-mode-container label {" ∷ "            display: flex;"
    ∷ "            align-items: center;" ∷ "            font-weight: normal;" ∷ "        }"
    ∷ "        .auto-mode-container input[type=\"checkbox\"] {" ∷ "            margin-right: 10px;"
    ∷ "        }" ∷ "    </style>" ∷ "</head>" ∷ "<body>" ∷ "" ∷ [])

unfoldable pub html_footer : Bytes
unfolding lines_of
html_footer = lines_of ("" ∷ "</body>" ∷ "</html>" ∷ "" ∷ [])
